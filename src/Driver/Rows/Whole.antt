-- ===== src/Driver/Rows/Whole.antt =====
-- A query of database/sql from its first step to the last row.
use zeta_go.Prelude.{
  ℕ, suc, ◌≡◌, refl, sym, ap, ◌∙◌, Bool, Bool-cases, true, inl, inr, some, [], ◌⊎◌, if◌then◌else◌,
}
use mathlib.Core.Path.{subst}
use zeta_go.Prelude.Int.{ℤ, eq_ℤ}
use zeta_go.Machine.{Bytes, Ptr, Platform, World, Heap, put, statement, pure, ◌>>=◌}
use zeta_go.Machine.Rules.{Returns, Returns-returns, Returns-chain}
use zeta_go.Machine.Heaps.{At-heap}
use zeta_go.Machine.Known.{In}
use zeta_go.Capi.{zeta_row, zeta_done}
use zeta_go.Capi.Rules.{zeta_step-Returns}
use zeta_go.Errors.{eof, Result, ok, err}
use zeta_go.Errors.Report.{stmt_error}
use zeta_go.Errors.Rules.{put_same, put_twice}
use zeta_go.Params.Reference.{stmt_error_known}
use zeta_go.Database.Contract.{ends, or_right}
use zeta_go.Driver.Conn.{Conn}
use zeta_go.Driver.Stmt.{RowState, first_step}
use zeta_go.Driver.Stmt.Executes.{on_handle}
use zeta_go.Driver.Rows.Fetches.{fetch_first}
use zeta_go.Driver.Rows.Fetched.{
  Fetched, over_now, failed_now, pending_row, done_rows, pending-Fetched, done_rows-Fetched,
}

-- What the step of `Query` answers: a row fetched ahead, or the end.
abbrev pub First :
    {e : Platform} → Heap → Conn → ℕ → Ptr → ℕ → e.State → Result RowState → World e Conn → Type 0
First {e} h c p owner places s (ok r) w =
    ((r ≡ pending_row)
      × (eq_ℤ (e.step s p).0 zeta_row ≡ true)
      × In (e.step s p).1 (put h p (some (statement owner true))) c w)
    ⊎ ((r ≡ done_rows) × Fetched h c p owner places s ([], eof) w)
First h c p owner places s (err x) w = Fetched h c p owner places s ([], x) w

module _ {e : Platform} (h : Heap) (c : Conn) (p : ℕ) (owner : Ptr) (sql : Bytes) (b : Bool)
    (places : ℕ) (s : e.State) where
  pub first_step-First :
      (row : Bool) (w : World e Conn)
      → In s (put h p (some (statement owner row))) c w
      → Returns (first_step (on_handle p sql b) w) (λ r. First h c p owner places s r.0 r.1)
  unfolding first_step
  first_step-First row w i =
      Returns-chain _ _ (zeta_step-Returns w i.at p owner row (put_same h p _)) (λ r (x, y, a).
        answered r.0 r.1 (x ∙ ap (λ t. (e.step t p).0) i.engine) (record {
          at = At-heap (put_twice h p _ _) a;
          engine = y ∙ ap (λ t. (e.step t p).1) i.engine;
        }))
    where
      answered :
          (rc : ℤ) (w : World e Conn)
          → rc ≡ (e.step s p).0
          → In (e.step s p).1 (put h p (some (statement owner (eq_ℤ rc zeta_row)))) c w
          → Returns
              ((if eq_ℤ rc zeta_row
                  then pure (ok pending_row)
                  else if eq_ℤ rc zeta_done
                  then pure (ok done_rows)
                  else (do x ← stmt_error (some p) rc; pure (err x)))
                w)
              (λ r. First h c p owner places s r.0 r.1)
      answered rc w q i = elim (Bool-cases (eq_ℤ rc zeta_row)) [
        | inl row ↦ rw row (
            Returns-returns _ (
              inl (
                refl,
                ap (λ c. eq_ℤ c zeta_row) (sym q) ∙ row,
                subst (λ z. In (e.step s p).1 (put h p (some (statement owner z))) c w) row i,
              )))
        | inr other ↦ elim (Bool-cases (eq_ℤ rc zeta_done)) [
          | inl over ↦
              rw (other, over)
                (Returns-returns _ (inr (refl, (over_now s rc w q other over i.engine, (_, i.at)))))
          | inr bad ↦
              rw (other, bad)
                (Returns-chain _ _ (stmt_error_known p owner _ (put_same h p _) _ rc w i)
                  (λ r (x, j).
                    Returns-returns _ (failed_now s rc r.0 r.1 q x other bad j.engine, (_, j.at))))
        ]
      ]

  pub First-Fetched :
      (f : ℕ) (r : Result RowState) (w : World e Conn)
      → ends e (suc f) s p ≡ true
      → First h c p owner places s r w
      → Returns
          (fetch_first (suc f) (on_handle p sql b) places r w)
          (λ r'. Fetched h c p owner places s r'.0 r'.1)
  unfolding fetch_first
  First-Fetched f (err x) w halts k = Returns-returns _ k
  First-Fetched f (ok r) w halts (inl (q, row, i)) =
      rw (q, fetch_first)
        (pending-Fetched h c p owner sql b places f s w row (or_right _ _ row halts) i)
  First-Fetched f (ok r) w halts (inr (q, k)) =
      rw (q, fetch_first) (done_rows-Fetched h c p owner sql b places f s w k)
