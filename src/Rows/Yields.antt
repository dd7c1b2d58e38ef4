-- ===== src/Rows/Yields.antt =====
-- `Next` against the steps of the engine.
use zeta_go.Prelude.{
  ℕ, ◌≡◌, refl, sym, ap, ◌∙◌, Bool, Bool-cases, true, false, inl, inr, Option, none, some, arith,
}
use zeta_go.Prelude.Int.{ℤ, eq_ℤ}
use mathlib.Core.Path.{subst}
use zeta_go.Machine.{Ptr, Platform, World, Heap, put, statement}
use zeta_go.Machine.Rules.{Returns, Returns-returns, Returns-chain}
use zeta_go.Machine.Heaps.{At, At-heap}
use zeta_go.Capi.{zeta_row, zeta_done}
use zeta_go.Capi.Rules.{zeta_step-Returns}
use zeta_go.Errors.{GoError, zeta, error_kind_from_code}
use zeta_go.Errors.Report.{text_or_empty}
use zeta_go.Errors.Rules.{put_same}
use zeta_go.Database.{Database}
use zeta_go.Database.Contract.{held, idle}
use zeta_go.Database.Loop.{stmt_error_answer}
use zeta_go.Rows.Protocol.{close-reading}
use zeta_go.Rows.{Rows, stop, after_next, next}

-- The engine's step of the statement `p` gives no row: it is done, or it fails with an error.
abbrev pub Stops : (e : Platform) → ℕ → e.State → Option GoError → Type 0
Stops e p s none = (eq_ℤ (e.step s p).0 zeta_row ≡ false) × (eq_ℤ (e.step s p).0 zeta_done ≡ true)
Stops e p s (some x) =
    (eq_ℤ (e.step s p).0 zeta_row ≡ false)
    × (eq_ℤ (e.step s p).0 zeta_done ≡ false)
    × (x
        ≡ zeta (record {
          kind = error_kind_from_code (e.step s p).0;
          text = text_or_empty (e.stmt_errmsg (e.step s p).1 p);
        }))

-- What `Next` answers on a live statement: the row that the engine has given, or, with the iterator
-- closed, the end that it has come to.
abbrev pub Took :
    {e : Platform} → Heap → Ptr → ℕ → Option ℕ → e.State → Bool → Rows → World e Database → Type 0
Took {e} h ptr p owner s true r w =
    (r ≡ record { stmt = some p; is_closed = false; last_err = none; at_row = true })
    × (eq_ℤ (e.step s p).0 zeta_row ≡ true)
    × (w.engine ≡ (e.step s p).1)
    × At (put h p (some (statement owner true))) (held ptr) w
Took {e} h ptr p owner s false r w =
    Stops e p s r.last_err × (r.is_closed ≡ true) × At h (idle ptr) w

module _ {e : Platform} {h : Heap} (ptr : Ptr) (p : ℕ) (owner : Option ℕ) (s : e.State)
    (new : h p ≡ none) where
  stop-Took :
      (row : Bool) (x : Option GoError) (w : World e Database)
      → Stops e p s x
      → At (put h p (some (statement owner row))) (held ptr) w
      → Returns
          (stop (record { stmt = some p; is_closed = false; last_err = x; at_row = false }) w)
          (λ r. Took h ptr p owner s r.0.0 r.0.1 r.1)
  unfolding stop
  stop-Took row x w q a = Returns-chain _ _ (close-reading ptr p owner row x false w new a) (λ r b.
      Returns-returns _ (
        subst (λ (t : Rows). Stops e p s t.last_err) (sym b.0) q,
        ap (λ (t : Rows). t.is_closed) b.0,
        b.1,
      ))

  after_next-Took :
      (at : Bool) (rc : ℤ) (w : World e Database)
      → rc ≡ (e.step s p).0
      → w.engine ≡ (e.step s p).1
      → At (put h p (some (statement owner (eq_ℤ rc zeta_row)))) (held ptr) w
      → Returns
          (after_next
            (record { stmt = some p; is_closed = false; last_err = none; at_row = at })
            rc
            w)
          (λ r. Took h ptr p owner s r.0.0 r.0.1 r.1)
  unfolding after_next
  after_next-Took at rc w x y a = elim (Bool-cases (eq_ℤ rc zeta_row)) [
    | inl row ↦
        rw (row, after_next)
          (Returns-returns _ (
            refl,
            ap (λ c. eq_ℤ c zeta_row) (sym x) ∙ row,
            y,
            subst (λ b. At (put h p (some (statement owner b))) (held ptr) w) row a,
          ))
    | inr other ↦ elim (Bool-cases (eq_ℤ rc zeta_done)) [
      | inl done ↦
          rw (other, done, after_next)
            (stop-Took _ none w
              (ap (λ c. eq_ℤ c zeta_row) (sym x) ∙ other, ap (λ c. eq_ℤ c zeta_done) (sym x) ∙ done)
              a)
      | inr bad ↦
          rw (other, bad, after_next)
            (Returns-chain _ _ (stmt_error_answer w a p owner _ rc (put_same h p _)) (λ r b.
              stop-Took _ (some r.0) r.1
                (
                  ap (λ c. eq_ℤ c zeta_row) (sym x) ∙ other,
                  ap (λ c. eq_ℤ c zeta_done) (sym x) ∙ bad,
                  rw (← x, ← y) b.0,
                )
                b.2))
    ]
  ]

  -- `Next` of an open iterator does the step of the engine.
  pub next-Took :
      (row at : Bool) (w : World e Database)
      → w.engine ≡ s
      → At (put h p (some (statement owner row))) (held ptr) w
      → Returns
          (next (record { stmt = some p; is_closed = false; last_err = none; at_row = at }) w)
          (λ r. Took h ptr p owner s r.0.0 r.0.1 r.1)
  unfolding next
  next-Took row at w here a =
      Returns-chain _ _ (zeta_step-Returns w a p owner row (put_same h p _)) (λ r b.
        after_next-Took at r.0 r.1 (b.0 ∙ ap (λ t. (e.step t p).0) here)
          (b.1 ∙ ap (λ t. (e.step t p).1) here) (At-heap (λ q. ground arith) b.2))
