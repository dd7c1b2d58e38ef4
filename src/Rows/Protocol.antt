-- ===== src/Rows/Protocol.antt =====
-- The iterator's protocol: who holds the mutex and the statement, and when a row can be read.
use zeta_go.Prelude.{
  ℕ, ◌≡◌, refl, sym, ap, Bool, Bool-cases, true, false, inl, inr, Option, none, some, arith,
}
use zeta_go.Prelude.Int.{ℤ, eq_ℤ}
use mathlib.Core.Path.{subst}
use zeta_go.Machine.{Ptr, Platform, World, Heap, put, statement}
use zeta_go.Machine.Rules.{Returns, Returns-returns, Returns-chain, Returns-mono}
use zeta_go.Machine.Heaps.{At, At-heap}
use zeta_go.Capi.{zeta_row, zeta_done}
use zeta_go.Capi.Rules.{zeta_step-Returns, zeta_finalize-Returns}
use zeta_go.Errors.{GoError}
use zeta_go.Errors.Rules.{put_fresh, put_same, stmt_error-Returns}
use zeta_go.Database.{Database}
use zeta_go.Database.Contract.{held, idle}
use zeta_go.Database.Exec.{unlock-Returns}
use zeta_go.Rows.{Rows, close, stop, after_next, next}

-- Where an iterator over the database at `ptr` stands; `h` is the heap without its statement.
-- Closed, it holds nothing. Open, it holds the mutex and a live statement; if it is at a row, the
-- statement is too.
pub data Iterates {e : Platform} (h : Heap) (ptr : Ptr) : Rows → World e Database → Type 0 where
  finished :
      (s : Ptr) (x : Option GoError) (at : Bool) (w : World e Database)
      → At h (idle ptr) w
      → Iterates h ptr (record { stmt = s; is_closed = true; last_err = x; at_row = at }) w
  reading :
      (p : ℕ) (owner : Option ℕ) (row at : Bool) (w : World e Database)
      → h p ≡ none
      → (at ≡ true → row ≡ true)
      → At (put h p (some (statement owner row))) (held ptr) w
      → Iterates h ptr (record { stmt = some p; is_closed = false; last_err = none; at_row = at }) w

-- What `Next` answers: a row to read, or a closed iterator.
abbrev pub Advances : {e : Platform} → Heap → Ptr → Bool → Rows → World e Database → Type 0
Advances h ptr true r w = (r.at_row ≡ true) × Iterates h ptr r w
Advances h ptr false r w = (r.is_closed ≡ true) × At h (idle ptr) w × Iterates h ptr r w

module _ {e : Platform} {h : Heap} (ptr : Ptr) where
  -- An open statement is finalized and the mutex freed.
  pub close-reading :
      (p : ℕ) (owner : Option ℕ) (row : Bool) (x : Option GoError) (at : Bool)
      (w : World e Database)
      → h p ≡ none
      → At (put h p (some (statement owner row))) (held ptr) w
      → Returns
          (close (record { stmt = some p; is_closed = false; last_err = x; at_row = at }) w)
          (λ r.
            (r.0 ≡ record { stmt = none; is_closed = true; last_err = x; at_row = false })
            × At h (idle ptr) r.1)
  unfolding close
  close-reading p owner row x at w new a =
      Returns-chain _ _ (zeta_finalize-Returns w a p owner row (put_same h p _)) (λ r b.
        Returns-chain _ _ (unlock-Returns ptr r.1 (At-heap (put_fresh h p _ new) b))
          (λ r' c. Returns-returns _ (refl, c)))

  -- `Close` of an iterator that keeps the protocol, open or closed, returns and leaves a closed
  -- iterator, the mutex free and the statement gone.
  pub close-Iterates :
      (r : Rows) (w : World e Database)
      → Iterates h ptr r w
      → Returns (close r w) (λ r'. Advances h ptr false r'.0 r'.1)
  unfolding close
  close-Iterates r w (finished s x at _ a) = Returns-returns _ (refl, a, finished s x at w a)
  close-Iterates r w (reading p owner row at _ new cur a) =
      Returns-mono _
        (λ r' b. (
          ap (λ (r : Rows). r.is_closed) b.0,
          b.1,
          subst (λ r. Iterates h ptr r r'.1) (sym b.0) (finished none none false r'.1 b.1),
        ))
        (close-reading p owner row none at w new a)

  -- The end of `Next` at ZETA_DONE or an error.
  stop-Advances :
      (p : ℕ) (owner : Option ℕ) (row : Bool) (x : Option GoError) (w : World e Database)
      → h p ≡ none
      → At (put h p (some (statement owner row))) (held ptr) w
      → Returns
          (stop (record { stmt = some p; is_closed = false; last_err = x; at_row = false }) w)
          (λ r. Advances h ptr r.0.0 r.0.1 r.1)
  unfolding stop
  stop-Advances p owner row x w new a =
      Returns-chain _ _ (close-reading p owner row x false w new a) (λ r b. Returns-returns _ (
        ap (λ (r : Rows). r.is_closed) b.0,
        b.1,
        subst (λ r'. Iterates h ptr r' r.1) (sym b.0) (finished none x false r.1 b.1),
      ))

  after_next-Advances :
      (p : ℕ) (owner : Option ℕ) (at : Bool) (rc : ℤ) (w : World e Database)
      → h p ≡ none
      → At (put h p (some (statement owner (eq_ℤ rc zeta_row)))) (held ptr) w
      → Returns
          (after_next
            (record { stmt = some p; is_closed = false; last_err = none; at_row = at })
            rc
            w)
          (λ r. Advances h ptr r.0.0 r.0.1 r.1)
  unfolding after_next
  after_next-Advances p owner at rc w new a = elim (Bool-cases (eq_ℤ rc zeta_row)) [
    | inl more ↦
        rw (more, after_next)
          (Returns-returns _ (refl, reading p owner (eq_ℤ rc zeta_row) true w new (λ _. more) a))
    | inr other ↦ elim (Bool-cases (eq_ℤ rc zeta_done)) [
      | inl done ↦ rw (other, done, after_next) (stop-Advances p owner _ none w new a)
      | inr bad ↦
          rw (other, bad, after_next)
            (Returns-chain _ _ (stmt_error-Returns w a p owner _ rc (put_same h p _))
              (λ r b. stop-Advances p owner _ (some r.0) r.1 new b))
    ]
  ]

  -- `Next` of an iterator that keeps the protocol returns: true at a row that can be read, or false
  -- with the iterator closed, the mutex free and the statement gone.
  pub next-Advances :
      (r : Rows) (w : World e Database)
      → Iterates h ptr r w
      → Returns (next r w) (λ r'. Advances h ptr r'.0.0 r'.0.1 r'.1)
  unfolding next
  next-Advances r w (finished s x at _ a) = Returns-returns _ (refl, a, finished s x at w a)
  next-Advances r w (reading p owner row at _ new cur a) =
      Returns-chain _ _ (zeta_step-Returns w a p owner row (put_same h p _))
        (λ r' b. after_next-Advances p owner at r'.0 r'.1 new (At-heap (λ q. ground arith) b.2))
