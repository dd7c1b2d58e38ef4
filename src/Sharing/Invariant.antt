-- ===== src/Sharing/Invariant.antt =====
-- What holds between the calls of goroutines that share a `Database`.
use zeta_go.Prelude.{
  ℕ, ◌==◌, ◌≡◌, ◌≢◌, refl, sym, ap, ◌∙◌, Bool, Bool-cases, true, false, inl, inr, Option, none,
  some, arith, if◌then◌else◌,
}
use mathlib.Core.Path.{subst}
use zeta_go.Machine.{Ptr, Platform, World, Heap, put, transaction}
use zeta_go.Machine.Heaps.{At}
use zeta_go.Database.{Database}
use zeta_go.Database.Contract.{IsOpen, idle}
use zeta_go.Database.Exec.{without}
use zeta_go.Rows.{Rows}
use zeta_go.Rows.Protocol.{Iterates, finished, reading}
use zeta_go.Tx.{Tx}
use zeta_go.Tx.Lifecycle.{still_open}
use zeta_go.Sharing.Calls.{Holds, nothing, live, spent, Quiet, without_tx}
use zeta_go.Sharing.{Worker, Workers, update, WithoutTx}

-- A transaction in hand that has not ended, by its name.
abbrev pub running : ℕ → Option Tx
running p = some (record { handle = some p; done = false })

-- The handle is NULL or live, every goroutine's transaction is live or has ended, and no two have
-- the same. If the goroutines are tidy, no transaction is live while the handle is NULL.
pub record Sound (tidy : Bool) (h : Heap) (ptr : Ptr) (ks : Workers) : Type 0 where
  pub opened : IsOpen h ptr
  pub holds : (i : ℕ) → Holds h (ks i).tx
  pub apart : (i j p : ℕ) → (ks i).tx ≡ running p → (ks j).tx ≡ running p → i ≡ j
  pub settled : tidy ≡ true → ptr ≡ none → WithoutTx h

-- The mutex is free and every iterator closed, or one goroutine has an open iterator, which holds
-- the mutex and its own statement, and all others are closed.
pub data Shares {e : Platform} (tidy : Bool) (ks : Workers) (w : World e Database) : Type 0 where
  free :
      (h : Heap) (ptr : Ptr)
      → Sound tidy h ptr ks
      → ((i : ℕ) → Quiet (ks i).rows)
      → At h (idle ptr) w
      → Shares tidy ks w
  busy :
      (h : Heap) (ptr : Ptr) (i : ℕ) (r : Rows)
      → Sound tidy h ptr ks
      → ((j : ℕ) → i ≢ j → Quiet (ks j).rows)
      → (ks i).rows ≡ some r
      → r.is_closed ≡ false
      → Iterates h ptr r w
      → Shares tidy ks w

module _ (ks : Workers) (i : ℕ) (k : Worker) where
  tx_here : (j : ℕ) → (i == j) ≡ true → k.tx ≡ (update ks i k j).tx
  tx_here j e = rw e refl

  tx_there : (j : ℕ) → (i == j) ≡ false → (ks j).tx ≡ (update ks i k j).tx
  tx_there j e = rw e refl

  pub update_here : update ks i k i ≡ k
  update_here = ground arith

  pub update_there : (j : ℕ) → i ≢ j → update ks i k j ≡ ks j
  update_there j n = elim (Bool-cases (i == j)) [
    | inl same ↦ absurd (n (ground (arith, same)))
    | inr apart ↦ rw apart refl
  ]

  -- A fact about every goroutine after the turn of one.
  pub update_all :
      (P : Worker → Type 0) → P k → ((j : ℕ) → i ≢ j → P (ks j)) → (j : ℕ) → P (update ks i k j)
  update_all P here there j = elim (Bool-cases (i == j)) [
    | inl same ↦ rw same here
    | inr not_same ↦ rw not_same (there j (ground arith))
  ]

module _ {tidy : Bool} {h : Heap} {ptr : Ptr} {ks : Workers} (s : Sound tidy h ptr ks) (i : ℕ)
    (k : Worker) where
  -- The transactions in hand stay.
  pub Sound-same : k.tx ≡ (ks i).tx → Sound tidy h ptr (update ks i k)
  Sound-same q = record {
    opened = s.opened;
    holds =
        update_all ks i k (λ x. Holds h x.tx) (subst (Holds h) (sym q) (s.holds i))
          (λ j _. s.holds j);
    apart = λ a b p x y. s.apart a b p (sym (tx_of a) ∙ x) (sym (tx_of b) ∙ y);
    settled = s.settled;
  }
    where
      tx_of : (j : ℕ) → (update ks i k j).tx ≡ (ks j).tx
      tx_of j = elim (Bool-cases (i == j)) [
        | inl same ↦ sym (tx_here ks i k j same) ∙ q ∙ ap (λ a. (ks a).tx) (ground (arith, same))
        | inr not_same ↦ sym (tx_there ks i k j not_same)
      ]

-- The name of a transaction that has not ended.
abbrev name_of : Option Tx → Ptr
name_of none = none
name_of (some t) = if t.done then none else t.handle

running-live :
    {h : Heap} {t : Option Tx} {p : ℕ} → Holds h t → t ≡ running p → h p ≡ some transaction
running-live nothing q = cc
running-live {h} {p = p} (live p' lp) q = ground (arith, lp, ap name_of q)
running-live (spent s) q = cc (ap name_of q)

done-Holds : {h : Heap} (t : Tx) → t.done ≡ true → Holds h (some t)
done-Holds {h} t q =
    subst (λ b. Holds h (some (record { handle = t.handle; done = b }))) (sym q) (spent t.handle)

-- What a goroutine holds is kept by a change of the heap that keeps the live transactions it runs.
Holds-kept :
    {h h' : Heap} {t : Option Tx}
    → Holds h t
    → ((p : ℕ) → t ≡ running p → h p ≡ some transaction → h' p ≡ some transaction)
    → Holds h' t
Holds-kept nothing f = nothing
Holds-kept (live p lp) f = live p (f p refl lp)
Holds-kept (spent s) f = spent s

module _ {tidy : Bool} {h h' : Heap} {ptr ptr' : Ptr} {ks : Workers} (s : Sound tidy h ptr ks)
    (i : ℕ) (k : Worker) where
  -- A turn that changes the transaction of one goroutine.
  Sound-after :
      IsOpen h' ptr'
      → (tidy ≡ true → ptr' ≡ none → WithoutTx h')
      → ((j p : ℕ)
          → i ≢ j
          → (ks j).tx ≡ running p
          → h p ≡ some transaction
          → h' p ≡ some transaction)
      → Holds h' k.tx
      → ((j p : ℕ) → i ≢ j → k.tx ≡ running p → (ks j).tx ≢ running p)
      → Sound tidy h' ptr' (update ks i k)
  Sound-after o still kept here alone = record {
    opened = o;
    settled = still;
    holds =
        update_all ks i k (λ x. Holds h' x.tx) here
          (λ j n. Holds-kept (s.holds j) (λ p. kept j p n));
    apart = λ a b p x y. elim (Bool-cases (i == a)) [
      | inl at_a ↦ elim (Bool-cases (i == b)) [
        | inl at_b ↦ ground (arith, at_a, at_b)
        | inr not_b ↦ absurd (
            alone b p (ground (arith, not_b)) (tx_here ks i k a at_a ∙ x)
              (tx_there ks i k b not_b ∙ y))
      ]
      | inr not_a ↦ elim (Bool-cases (i == b)) [
        | inl at_b ↦ absurd (
            alone a p (ground (arith, not_a)) (tx_here ks i k b at_b ∙ y)
              (tx_there ks i k a not_a ∙ x))
        | inr not_b ↦ s.apart a b p (tx_there ks i k a not_a ∙ x) (tx_there ks i k b not_b ∙ y)
      ]
    ];
  }

closed_only :
    (h : Heap) (p : ℕ) (ptr : Ptr) → without h ptr p ≡ some transaction → h p ≡ some transaction
closed_only h p none lp = lp
closed_only h p (some d) lp = ground (arith, lp)

-- Ending a transaction makes no other live.
ended_only :
    (h : Heap) (t : Tx) (p : ℕ) → without_tx h t p ≡ some transaction → h p ≡ some transaction
ended_only h t p lp = elim (Bool-cases t.done) [
  | inl past ↦ subst (λ b. (if b then h else without h t.handle) p ≡ some transaction) past lp
  | inr going ↦
      closed_only h p t.handle
        (subst (λ b. (if b then h else without h t.handle) p ≡ some transaction) going lp)
]

module _ {h : Heap} where
  ended_open : (t : Tx) (ptr : Ptr) → Holds h (some t) → IsOpen h ptr → IsOpen (without_tx h t) ptr
  ended_open t none i o = tt
  ended_open t (some d) (spent x) o = o
  ended_open t (some d) (live p lp) o = ground (arith, lp, o)

  ended_kept :
      (t : Tx) (p : ℕ)
      → Holds h (some t)
      → some t ≢ running p
      → h p ≡ some transaction
      → without_tx h t p ≡ some transaction
  ended_kept t p (spent x) n lp = lp
  ended_kept t p (live p' lp') n lp = elim (Bool-cases (p' == p)) [
    | inl same ↦ absurd (n (ap running (ground (arith, same))))
    | inr apart ↦ rw apart lp
  ]

closed_kept :
    (h : Heap) (p : ℕ) (ptr : Ptr)
    → IsOpen h ptr
    → h p ≡ some transaction
    → without h ptr p ≡ some transaction
closed_kept h p none o lp = lp
closed_kept h p (some d) o lp = ground (arith, o, lp)

module _ {tidy : Bool} {h : Heap} {ptr : Ptr} {ks : Workers} (s : Sound tidy h ptr ks) (i : ℕ)
    (k : Worker) where
  -- A transaction has begun.
  pub Sound-begun :
      (p : ℕ)
      → h p ≡ none
      → ptr ≢ none
      → k.tx ≡ running p
      → Sound tidy (put h p (some transaction)) ptr (update ks i k)
  Sound-begun p new o q =
      Sound-after s i k (still_open h p ptr new s.opened) (λ x y. absurd (o y))
        (λ j p' n x lp. ground (arith, lp))
        (subst (Holds (put h p (some transaction))) (sym q) (live p (ground arith)))
        (λ j p' n x y. ground (arith, new, running-live (s.holds j) y, ap name_of (sym q ∙ x)))

  -- A transaction in hand that had ended before.
  pub Sound-done : (t : Tx) → k.tx ≡ some t → t.done ≡ true → Sound tidy h ptr (update ks i k)
  Sound-done t q past =
      Sound-after s i k s.opened s.settled (λ j p n x lp. lp)
        (subst (Holds h) (sym q) (done-Holds t past))
        (λ j p n x y. ground (arith, past, ap name_of (sym q ∙ x)))

  -- A transaction has ended.
  pub Sound-ended :
      (t t' : Tx)
      → (ks i).tx ≡ some t
      → k.tx ≡ some t'
      → t'.done ≡ true
      → Sound tidy (without_tx h t) ptr (update ks i k)
  Sound-ended t t' q q' over =
      let held = subst (Holds h) q (s.holds i) in
      Sound-after s i k (ended_open t ptr held s.opened)
        (λ x y p lp. s.settled x y p (ended_only h t p lp))
        (λ j p n x lp. ended_kept t p held (λ y. n (s.apart i j p (q ∙ y) x)) lp)
        (subst (Holds (without_tx h t)) (sym q') (done-Holds t' over))
        (λ j p n x y. ground (arith, over, ap name_of (sym q' ∙ x)))

  -- The database has been closed.
  pub Sound-closed :
      (tidy ≡ true → WithoutTx h)
      → k.tx ≡ (ks i).tx
      → Sound tidy (without h ptr) none (update ks i k)
  Sound-closed mind q =
      Sound-after s i k tt (λ x y p lp. mind x p (closed_only h p ptr lp))
        (λ j p n x lp. closed_kept h p ptr s.opened lp)
        (Holds-kept (subst (Holds h) (sym q) (s.holds i))
          (λ p x lp. closed_kept h p ptr s.opened lp))
        (λ j p n x y. n (s.apart i j p (sym q ∙ x) y))

module _ {e : Platform} {tidy : Bool} {h : Heap} {ptr : Ptr} (ks : Workers) (i : ℕ) (k : Worker)
    (s : Sound tidy h ptr (update ks i k)) (w : World e Database) where
  -- After a turn at which the mutex is free.
  pub free_after :
      Quiet k.rows
      → ((j : ℕ) → i ≢ j → Quiet (ks j).rows)
      → At h (idle ptr) w
      → Shares tidy (update ks i k) w
  free_after here there a = free h ptr s (update_all ks i k (λ x. Quiet x.rows) here there) a

  -- After a turn that leaves an iterator in hand, open or closed.
  pub rows_after :
      (r : Rows)
      → k.rows ≡ some r
      → ((j : ℕ) → i ≢ j → Quiet (ks j).rows)
      → Iterates h ptr r w
      → Shares tidy (update ks i k) w
  rows_after r q there (finished x y z _ a) = free_after (subst Quiet (sym q) refl) there a
  rows_after r q there (reading p owner row at _ new cur a) =
      busy h ptr i r s
        (λ j n. subst (λ x. Quiet x.rows) (sym (update_there ks i k j n)) (there j n))
        (ap (λ (x : Worker). x.rows) (update_here ks i k) ∙ q) refl
        (reading p owner row at w new cur a)
