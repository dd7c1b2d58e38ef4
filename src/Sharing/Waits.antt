-- ===== src/Sharing/Waits.antt =====
-- The turn of a goroutine in any state of the others, with the mutex free or taken.
use zeta_go.Prelude.{
  ℕ, ◌==◌, ◌≡◌, ◌≢◌, refl, sym, ap, ◌∙◌, Bool, Bool-cases, true, false, ◌⊎◌, inl, inr, Option, none,
  some, arith,
}
use mathlib.Core.Path.{subst}
use zeta_go.Machine.{Ptr, Platform, World, Heap, M, Outcome, blocks}
use zeta_go.Machine.Rules.{Returns, Returns-returns, Returns-chain}
use zeta_go.Database.{Database, lock, exec, close}
use zeta_go.Database.Contract.{Halts}
use zeta_go.Rows.{Rows, query}
use zeta_go.Rows.Protocol.{Iterates, finished, reading}
use zeta_go.Rows.Lifecycle.{Call, Counts, call-Iterates}
use zeta_go.Tx.{Tx, begin_with_isolation, commit, rollback}
use zeta_go.Schema.{list_tables, table_info}
use zeta_go.Sharing.Calls.{Quiet, call-Quiet}
use zeta_go.Sharing.Invariant.{Sound, Sound-same, Shares, free, busy, rows_after}
use zeta_go.Sharing.Turns.{Leads, turn-Leads}
use zeta_go.Sharing.{
  Worker, Workers, update, Turn, executes, queries, tx_executes, tx_queries, reads, begins, commits,
  rollbacks, lists, describes, in_tx, on_rows, turn, Minds,
}

-- Some goroutine has an open iterator.
abbrev pub Busy : Workers → Type 0
Busy ks = (j : ℕ) × (r : Rows) × ((ks j).rows ≡ some r) × (r.is_closed ≡ false)

-- A turn of goroutine `i` waits for the mutex, which an iterator holds, or it returns.
abbrev pub Turns :
    {e : Platform} → Bool → Workers → ℕ → Outcome (Worker × World e Database) → Type 0
Turns tidy ks i o = ((o ≡ blocks) × Busy ks) ⊎ Returns o (Leads tidy ks i)

module _ {e : Platform} {tidy : Bool} (ks : Workers) (i : ℕ) (w : World e Database)
    (s : Shares tidy ks w) where
  -- Nothing has changed.
  idle-Leads : (k : Worker) → k ≡ ks i → Leads tidy ks i (k, w)
  idle-Leads k q = subst (λ x. Shares tidy x w) (λ t j. same j t) s
    where
      same : (j : ℕ) → ks j ≡ update ks i k j
      same j = elim (Bool-cases (i == j)) [
        | inl here ↦ ap ks (ground (arith, here)) ∙ sym q ∙ rw here refl
        | inr there ↦ rw there refl
      ]

pub Iterates-locked :
    {e : Platform} {h : Heap} {ptr : Ptr} (r : Rows) (w : World e Database)
    → Iterates h ptr r w
    → r.is_closed ≡ false
    → w.go.locked ≡ true
Iterates-locked r w (finished x y z _ a) q = cc
Iterates-locked r w (reading p owner row at _ new cur a) q = ap (λ (g : Database). g.locked) a.go

module _ {e : Platform} (w : World e Database) (taken : w.go.locked ≡ true) where
  lock-taken : lock w ≡ blocks
  unfolding lock
  lock-taken = rw taken refl

  in_tx-waits :
      {tidy : Bool} (m : Tx → M e Database Worker) (ks : Workers) (i : ℕ) (o : Option Tx)
      → Shares tidy ks w
      → Busy ks
      → ((t : Tx) → m t w ≡ blocks)
      → Turns tidy ks i (in_tx m (ks i) o w)
  in_tx-waits m ks i none s b q = inr (Returns-returns _ (idle-Leads ks i w s (ks i) refl))
  in_tx-waits m ks i (some t) s b q = inl (q t, b)

module _ {e : Platform} {tidy : Bool} {h : Heap} {ptr : Ptr} (counts : Counts e) (ks : Workers)
    (i j : ℕ) (r : Rows) (w : World e Database) (s : Sound tidy h ptr ks)
    (others : (j : ℕ) → i ≢ j → Quiet (ks j).rows) (q : (ks i).rows ≡ some r)
    (shut : r.is_closed ≡ false) (it : Iterates h ptr r w) where
  -- A call on the open iterator.
  holder-Leads : (c : Call) → Returns (on_rows c (ks i) (some r) w) (Leads tidy ks i)
  unfolding on_rows
  holder-Leads c = Returns-chain _ _ (call-Iterates ptr counts c r w it) (λ r' b.
      Returns-returns _ (
        rows_after ks i (record (ks i) { rows = some r'.0 }) (Sound-same s i _ refl) r'.1 r'.0 refl
          others b))

  -- A call on a closed one.
  bystander-Leads :
      (c : Call) (x : Option Rows)
      → Quiet x
      → (ks j).rows ≡ x
      → Returns (on_rows c (ks j) x w) (Leads tidy ks j)
  unfolding on_rows
  bystander-Leads c none z y =
      Returns-returns _ (idle-Leads ks j w (busy h ptr i r s others q shut it) (ks j) refl)
  bystander-Leads c (some x) z y = rw (call-Quiet c x w z) (
      Returns-returns _ (
        idle-Leads ks j w (busy h ptr i r s others q shut it) (record (ks j) { rows = some x })
          (λ t. record { rows = sym y t; tx = (ks j).tx })))

  reads-Leads : (c : Call) → Returns (on_rows c (ks j) (ks j).rows w) (Leads tidy ks j)
  reads-Leads c = elim (Bool-cases (i == j)) [
    | inl here ↦
        subst (λ j. Returns (on_rows c (ks j) (ks j).rows w) (Leads tidy ks j))
          (ground (arith, here))
          (subst (λ x. Returns (on_rows c (ks i) x w) (Leads tidy ks i)) (sym q) (holder-Leads c))
    | inr there ↦ bystander-Leads c (ks j).rows (others j (ground (arith, there))) refl
  ]

module _ {e : Platform} {tidy : Bool} (f : ℕ) (halts : Halts e f) (counts : Counts e) (ks : Workers)
    (w : World e Database) where
  -- A turn while the mutex is taken.
  busy-Turns :
      {h : Heap} {ptr : Ptr} (i j : ℕ) (r : Rows) (t : Turn e)
      → Sound tidy h ptr ks
      → ((j : ℕ) → i ≢ j → Quiet (ks j).rows)
      → (ks i).rows ≡ some r
      → r.is_closed ≡ false
      → Iterates h ptr r w
      → Turns tidy ks j (turn f t (ks j) w)
  unfolding turn exec query close begin_with_isolation list_tables table_info zeta_go.Tx.exec
      zeta_go.Tx.query commit rollback
  busy-Turns {h} {ptr} i j r t s others q shut it = go t
    where
      all : Shares tidy ks w
      all = busy h ptr i r s others q shut it

      waiting : Busy ks
      waiting = (i, r, q, shut)

      taken : w.go.locked ≡ true
      taken = Iterates-locked r w it shut

      stop : lock w ≡ blocks
      stop = lock-taken w taken

      go : (t : Turn e) → Turns tidy ks j (turn f t (ks j) w)
      go (executes sql ps) = inl (rw stop refl, waiting)
      go (queries sql ps) = inl (rw stop refl, waiting)
      go (tx_executes sql ps) = in_tx-waits w taken _ ks j (ks j).tx all waiting (λ t. rw stop refl)
      go (tx_queries sql ps) = in_tx-waits w taken _ ks j (ks j).tx all waiting (λ t. rw stop refl)
      go (reads c) = inr (reads-Leads counts ks i j r w s others q shut it c)
      go (begins level) = inl (rw stop refl, waiting)
      go commits = in_tx-waits w taken _ ks j (ks j).tx all waiting (λ t. rw stop refl)
      go rollbacks = in_tx-waits w taken _ ks j (ks j).tx all waiting (λ t. rw stop refl)
      go zeta_go.Sharing.closes = inl (rw stop refl, waiting)
      go lists = inl (rw stop refl, waiting)
      go (describes name) = inl (rw stop refl, waiting)

  pub turn-Turns :
      (i : ℕ) (t : Turn e) → Minds tidy t w → Shares tidy ks w → Turns tidy ks i (turn f t (ks i) w)
  turn-Turns i t mind (free h ptr s quiet a) =
      inr (turn-Leads f halts counts ptr ks i s quiet w a t mind)
  turn-Turns j t mind (busy h ptr i r s others q shut it) = busy-Turns i j r t s others q shut it
