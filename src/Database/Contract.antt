-- ===== src/Database/Contract.antt =====
-- What each step of `Exec` and `Query` does with the C objects and the mutex.
use zeta_go.Prelude.{
  ℕ, zero, suc, ◌≡◌, Bool, Bool-cases, true, false, inl, inr, Option, none, some, List, arith, ◌||◌,
  not,
}
use zeta_go.Prelude.Int.{ℤ, eq_ℤ}
use zeta_go.Machine.{
  Bytes, Ptr, Platform, World, M, Heap, Obj, put, statement, c_string, database, chain, returns,
}
use zeta_go.Machine.Rules.{Returns, Returns-returns, Returns-chain, Returns-mono}
use zeta_go.Machine.Heaps.{At, At-heap, get_go-chain}
use zeta_go.Capi.{zeta_row, zeta_done, free}
use zeta_go.Capi.Rules.{
  Makes, c_string_of-Returns, free-Returns, zeta_prepare-Returns, zeta_errcode-Returns,
  zeta_changes-Returns, zeta_step-Returns, zeta_finalize-Returns,
}
use zeta_go.Errors.{Result, ok, err}
use zeta_go.Errors.Rules.{put_fresh, put_same, consume_err_msg-Returns, stmt_error-Returns}
use zeta_go.Params.{Param}
use zeta_go.Params.Rules.{bind_params-Returns}
use zeta_go.Database.{Database, checked, prepared, prepare_locked, drain, after_step, run_statement}

-- The engine gives fewer than `f` rows before the statement is done or fails.
abbrev pub ends : (e : Platform) → ℕ → e.State → ℕ → Bool
ends e zero s p = false
ends e (suc f) s p = not (eq_ℤ (e.step s p).0 zeta_row) || ends e f (e.step s p).1 p

-- An object that is created is the only new one; otherwise nothing is.
abbrev pub Creates : {e : Platform} {G : Type 0} → Heap → G → Obj → Result Ptr → World e G → Type 0
Creates h g o (ok none) w = ⊥
Creates h g o (ok (some p)) w = (h p ≡ none) × At (put h p (some o)) g w
Creates h g o (err x) w = At h g w

abbrev pub Prepares :
    {e : Platform} {G : Type 0} → Heap → G → Option ℕ → Result Ptr → World e G → Type 0
Prepares h g owner = Creates h g (statement owner false)

-- Only the cursor of the statement `p` has moved.
abbrev pub Moved : {e : Platform} {G : Type 0} → Heap → G → ℕ → Option ℕ → World e G → Type 0
Moved h g p owner w = (row : Bool) × At (put h p (some (statement owner row))) g w

module _ {e : Platform} {G : Type 0} {h : Heap} {g : G} (d : ℕ) (live : h d ≡ some database) where
  pub prepared-Returns :
      (o : Obj) (r : Ptr × Ptr) (w : World e G)
      → Makes h g o r.0 r.1 w
      → Returns (prepared (some d) r w) (λ r'. Creates h g o r'.0 r'.1)
  unfolding prepared
  prepared-Returns o (some p, msg) w (new, _, a) = Returns-returns _ (new, a)
  prepared-Returns o (none, none) w a = Returns-chain _ _ (zeta_errcode-Returns w a d live) (λ r b.
      Returns-chain _ _ (consume_err_msg-Returns r.1 none _ b) (λ r' c. Returns-returns _ c))
  prepared-Returns o (none, some m) w (t, new, a) =
      Returns-chain _ _ (zeta_errcode-Returns w a d (ground (arith, live, new))) (λ r b.
        Returns-chain _ _ (consume_err_msg-Returns r.1 (some m) _ (t, new, b))
          (λ r' c. Returns-returns _ c))

module _ {e : Platform} {G : Type 0} {h : Heap} {g : G} where
  -- The copy of a text, freed on return, leaves no trace.
  pub free-Creates :
      (n : ℕ) (o : Obj) (r : Result Ptr) (w : World e G)
      → h n ≡ none
      → Creates (put h n (some c_string)) g o r w
      → Returns {A = Result Ptr × World e G}
          (chain (free (some n) w) (λ r'. returns (r, r'.1)))
          (λ r'. Creates h g o r'.0 r'.1)
  free-Creates n o (ok none) w new a = absurd a
  free-Creates n o (ok (some p)) w new (other, a) =
      Returns-chain _ _ (free-Returns w a n (ground arith))
        (λ r b. Returns-returns _ (ground arith, At-heap (λ q. ground arith) b))
  free-Creates n o (err x) w new a =
      Returns-chain _ _ (free-Returns w a n (ground arith))
        (λ r b. Returns-returns _ (At-heap (put_fresh h n _ new) b))

  pub free-Prepares :
      (n : ℕ) (owner : Option ℕ) (r : Result Ptr) (w : World e G)
      → h n ≡ none
      → Prepares (put h n (some c_string)) g owner r w
      → Returns {A = Result Ptr × World e G}
          (chain (free (some n) w) (λ r'. returns (r, r'.1)))
          (λ r'. Prepares h g owner r'.0 r'.1)
  free-Prepares n owner = free-Creates n (statement owner false)

  -- The three branches after a step that answered `rc`; `rest` is the next round.
  after_step-Returns :
      (d p : ℕ) (owner : Option ℕ) (rc : ℤ) (rest : M e G (Result ℤ)) (w : World e G)
      → h d ≡ some database
      → h p ≡ some (statement owner (eq_ℤ rc zeta_row))
      → At h g w
      → (eq_ℤ rc zeta_row ≡ true → Returns (rest w) (λ r. Moved h g p owner r.1))
      → Returns (after_step (some d) (some p) rc rest w) (λ r. Moved h g p owner r.1)
  unfolding after_step
  after_step-Returns d p owner rc rest w ld lp a k = elim (Bool-cases (eq_ℤ rc zeta_done)) [
    | inl done ↦
        rw (done, after_step)
          (Returns-chain _ _ (zeta_changes-Returns w a d ld)
            (λ r b. Returns-returns _ (eq_ℤ rc zeta_row, At-heap (λ q. ground (arith, lp)) b)))
    | inr going ↦ elim (Bool-cases (eq_ℤ rc zeta_row)) [
      | inl row ↦ rw (going, row, after_step) (k row)
      | inr bad ↦
          rw (going, bad, after_step)
            (Returns-chain _ _ (stmt_error-Returns w a p owner _ rc lp)
              (λ r b. Returns-returns _ (eq_ℤ rc zeta_row, At-heap (λ q. ground (arith, lp)) b)))
    ]
  ]

pub or_right : (b c : Bool) → b ≡ true → (not b || c) ≡ true → c ≡ true
or_right b c h k = ground arith

-- A database stays when a statement changes.
pub still :
    (h : Heap) (d p : ℕ) (o : Option Obj) {owner : Option ℕ} {row : Bool}
    → h d ≡ some database
    → h p ≡ some (statement owner row)
    → put h p o d ≡ some database
still h d p o ld lp = ground (arith, ld, lp)

module _ {e : Platform} {G : Type 0} {g : G} where
  pub Moved-again :
      (h : Heap) (p : ℕ) (owner : Option ℕ) (row : Bool) (w : World e G)
      → Moved (put h p (some (statement owner row))) g p owner w
      → Moved h g p owner w
  Moved-again h p owner row w (row', a) = (row', At-heap (λ q. ground arith) a)

  -- On a live database and a live statement that ends within the fuel, the loop of `Exec` returns, and
  -- only the statement's cursor has moved.
  pub drain-Returns :
      (f : ℕ) (h : Heap) (d p : ℕ) (owner : Option ℕ) (row : Bool) (w : World e G)
      → h d ≡ some database
      → h p ≡ some (statement owner row)
      → ends e f w.engine p ≡ true
      → At h g w
      → Returns (drain f (some d) (some p) w) (λ r. Moved h g p owner r.1)
  unfolding drain
  drain-Returns zero h d p owner row w ld lp halts a = cc
  drain-Returns (suc f) h d p owner row w ld lp halts a =
      Returns-chain _ _ (zeta_step-Returns w a p owner row lp) (λ r b.
        let db = still h d p (some (statement owner (eq_ℤ r.0 zeta_row))) ld lp in
        let st = put_same h p (some (statement owner (eq_ℤ r.0 zeta_row))) in
        Returns-mono _ (λ r'. Moved-again h p owner _ r'.1)
          (after_step-Returns d p owner r.0 _ r.1 db st b.2 (λ more.
            drain-Returns f _ d p owner _ r.1 db st (rw b.1 (or_right _ _ (rw (← b.0) more) halts))
              b.2)))

-- `handle` is NULL or a live database.
abbrev pub IsOpen : Heap → Ptr → Type 0
IsOpen h none = Unit {0}
IsOpen h (some d) = h d ≡ some database

-- Every statement gives fewer than `f` rows.
abbrev pub Halts : Platform → ℕ → Type 0
Halts e f = (s : e.State) (p : ℕ) → ends e f s p ≡ true

-- The `Database` with its mutex held, and free.
abbrev pub held : Ptr → Database
held p = record { locked = true; handle = p }

abbrev pub idle : Ptr → Database
idle p = record { locked = false; handle = p }

module _ {e : Platform} (h : Heap) (d : ℕ) (ld : h d ≡ some database) where
  pub prepare_locked-Returns :
      (sql : Bytes) (w : World e Database)
      → At h (held (some d)) w
      → Returns (prepare_locked sql w) (λ r. Prepares h (held (some d)) none r.0 r.1)
  unfolding prepare_locked
  prepare_locked-Returns sql w a =
      Returns-chain _ _ (c_string_of-Returns w a) (λ r (n, here, new, b).
        let db : put h n (some c_string) d ≡ some database = ground (arith, ld, new) in
        rw here (
          Returns-chain _ _
            (get_go-chain r.1 b _ (
              Returns-chain _ _ (zeta_prepare-Returns r.1 b d db sql)
                (λ r' c. prepared-Returns d db _ r'.0 r'.1 c)))
            (λ r' c. free-Prepares n none r'.0 r'.1 new c)))

  -- The branch after the parameters are bound, or are not.
  checked-drain-Returns :
      (f p : ℕ) (owner : Option ℕ) (b : Result (Unit {0})) (w : World e Database)
      → Halts e f
      → h p ≡ none
      → At (put h p (some (statement owner false))) (held (some d)) w
      → Returns
          (checked b (λ _. drain f (some d) (some p)) w)
          (λ r. Moved h (held (some d)) p owner r.1)
  checked-drain-Returns f p owner (err x) w halts new a = Returns-returns _ (false, a)
  checked-drain-Returns f p owner (ok u) w halts new a =
      Returns-mono _ (λ r. Moved-again h p owner false r.1)
        (drain-Returns f _ d p owner false w (ground (arith, ld, new)) (put_same h p _)
          (halts w.engine p) a)

  -- A statement that is run is finalized: the heap is as it was without it.
  pub run_statement-Returns :
      (f p : ℕ) (owner : Option ℕ) (params : List (Param e)) (w : World e Database)
      → Halts e f
      → h p ≡ none
      → At (put h p (some (statement owner false))) (held (some d)) w
      → Returns (run_statement f (some p) params w) (λ r. At h (held (some d)) r.1)
  unfolding run_statement
  run_statement-Returns f p owner params w halts new a =
      Returns-chain _ _
        (Returns-chain _ _ (bind_params-Returns p owner false (put_same h p _) params w a)
          (λ r b. get_go-chain r.1 b _ (checked-drain-Returns f p owner r.0 r.1 halts new b)))
        (λ r (row, b).
          Returns-chain _ _ (zeta_finalize-Returns r.1 b p owner row (put_same h p _))
            (λ r' c. Returns-returns _ (At-heap (put_fresh h p _ new) c)))
