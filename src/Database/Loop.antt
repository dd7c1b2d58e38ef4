-- ===== src/Database/Loop.antt =====
-- The loop of `Exec` against the steps that the engine takes.
use zeta_go.Prelude.{
  ℕ, zero, suc, ◌≡◌, refl, ap, ◌∙◌, sym, Bool, Bool-cases, true, false, inl, inr, some, arith,
}
use zeta_go.Prelude.Int.{ℤ, eq_ℤ}
use zeta_go.Machine.{Ptr, Platform, World, M, Heap, database, statement, as_database, as_statement}
use zeta_go.Machine.Rules.{Returns, Returns-returns, Returns-chain, Returns-mono}
use zeta_go.Machine.Heaps.{At, At-heap, the-chain, ask_answer}
use zeta_go.Capi.{zeta_row, zeta_done, zeta_changes, zeta_stmt_errmsg}
use zeta_go.Capi.Rules.{zeta_step-Returns}
use zeta_go.Errors.{GoError, zeta, Result, ok, err, error_kind_from_code}
use zeta_go.Errors.Report.{stmt_error, text_or_empty}
use zeta_go.Errors.Rules.{put_same}
use zeta_go.Database.Contract.{ends, Moved, or_right, still, Moved-again}
use zeta_go.Database.{after_step, drain}

-- How the engine takes the statement `p` from a state to its end, and what that means: the count of
-- changes once it is done, whatever number of rows comes before, or the error that ends it.
pub data Runs (e : Platform) (d p : ℕ) : e.State → Result ℤ → e.State → Type 0 where
  over :
      (s t : e.State) (n : ℤ)
      → eq_ℤ (e.step s p).0 zeta_done ≡ true
      → t ≡ (e.step s p).1
      → n ≡ e.changes t d
      → Runs e d p s (ok n) t
  more :
      (s t u : e.State) (r : Result ℤ)
      → eq_ℤ (e.step s p).0 zeta_row ≡ true
      → t ≡ (e.step s p).1
      → Runs e d p t r u
      → Runs e d p s r u
  fails :
      (s t : e.State) (x : GoError)
      → eq_ℤ (e.step s p).0 zeta_done ≡ false
      → eq_ℤ (e.step s p).0 zeta_row ≡ false
      → t ≡ (e.step s p).1
      → x
        ≡ zeta (record {
          kind = error_kind_from_code (e.step s p).0;
          text = text_or_empty (e.stmt_errmsg t p);
        })
      → Runs e d p s (err x) t

module _ {e : Platform} {G : Type 0} {h : Heap} {g : G} (w : World e G) (a : At h g w) where
  changes_answer :
      (d : ℕ)
      → h d ≡ some database
      → Returns
          (zeta_changes (some d) w)
          (λ r. (r.0 ≡ e.changes w.engine d) × (r.1.engine ≡ w.engine) × At h g r.1)
  unfolding zeta_changes
  changes_answer d live = the-chain w a as_database d database tt _ live refl (ask_answer w a _)

  pub stmt_error_answer :
      (p : ℕ) (owner : Ptr) (row : Bool) (rc : ℤ)
      → h p ≡ some (statement owner row)
      → Returns (stmt_error (some p) rc w) (λ r.
        (r.0
          ≡ zeta (record {
            kind = error_kind_from_code rc;
            text = text_or_empty (e.stmt_errmsg w.engine p);
          }))
        × (r.1.engine ≡ w.engine)
        × At h g r.1)
  unfolding stmt_error zeta_stmt_errmsg
  stmt_error_answer p owner row rc live =
      Returns-chain _ _
        (the-chain w a as_statement p (statement owner row) (owner, row) _ live refl
          (ask_answer w a (λ s. (e.stmt_errmsg s p, s))))
        (λ r (x, y, b). Returns-returns _ (
          ap (λ m. zeta (record { kind = error_kind_from_code rc; text = text_or_empty m })) x,
          y,
          b,
        ))

module _ {e : Platform} {G : Type 0} {g : G} where
  after_step-Runs :
      (h : Heap) (d p : ℕ) (owner : Ptr) (s : e.State) (rc : ℤ) (rest : M e G (Result ℤ))
      (w : World e G)
      → rc ≡ (e.step s p).0
      → w.engine ≡ (e.step s p).1
      → h d ≡ some database
      → h p ≡ some (statement owner (eq_ℤ rc zeta_row))
      → At h g w
      → (eq_ℤ rc zeta_row ≡ true
          → Returns (rest w) (λ r. Runs e d p w.engine r.0 r.1.engine × Moved h g p owner r.1))
      → Returns
          (after_step (some d) (some p) rc rest w)
          (λ r. Runs e d p s r.0 r.1.engine × Moved h g p owner r.1)
  unfolding after_step
  after_step-Runs h d p owner s rc rest w x y ld lp a k = elim (Bool-cases (eq_ℤ rc zeta_done)) [
    | inl done ↦
        rw (done, after_step)
          (Returns-chain _ _ (changes_answer w a d ld) (λ r (n, t, b). Returns-returns _ (
            over s r.1.engine r.0 (ap (λ c. eq_ℤ c zeta_done) (sym x) ∙ done) (t ∙ y)
                (n ∙ ap (λ u. e.changes u d) (sym t)),
            (eq_ℤ rc zeta_row, At-heap (λ q. ground (arith, lp)) b),
          )))
    | inr going ↦ elim (Bool-cases (eq_ℤ rc zeta_row)) [
      | inl row ↦
          rw (going, row, after_step)
            (Returns-mono _
              (λ r (m, b).
                (more s w.engine r.1.engine r.0 (ap (λ c. eq_ℤ c zeta_row) (sym x) ∙ row) y m, b))
              (k row))
      | inr bad ↦
          rw (going, bad, after_step)
            (Returns-chain _ _ (stmt_error_answer w a p owner _ rc lp) (λ r (z, t, b).
              Returns-returns _ (
                fails s r.1.engine r.0 (ap (λ c. eq_ℤ c zeta_done) (sym x) ∙ going)
                    (ap (λ c. eq_ℤ c zeta_row) (sym x) ∙ bad) (t ∙ y) (rw (← x, t) z),
                (eq_ℤ rc zeta_row, At-heap (λ q. ground (arith, lp)) b),
              )))
    ]
  ]

  -- On a live database and a live statement that ends within the fuel, the loop of `Exec` returns. It
  -- takes the engine through the statement's steps to their end and answers what that end means:
  -- the count of changes, or the error. Only the statement's cursor has moved.
  pub drain-Runs :
      (f : ℕ) (h : Heap) (d p : ℕ) (owner : Ptr) (row : Bool) (w : World e G)
      → h d ≡ some database
      → h p ≡ some (statement owner row)
      → ends e f w.engine p ≡ true
      → At h g w
      → Returns
          (drain f (some d) (some p) w)
          (λ r. Runs e d p w.engine r.0 r.1.engine × Moved h g p owner r.1)
  unfolding drain
  drain-Runs zero h d p owner row w ld lp halts a = cc
  drain-Runs (suc f) h d p owner row w ld lp halts a =
      Returns-chain _ _ (zeta_step-Returns w a p owner row lp) (λ r b.
        let db = still h d p (some (statement owner (eq_ℤ r.0 zeta_row))) ld lp in
        let st = put_same h p (some (statement owner (eq_ℤ r.0 zeta_row))) in
        Returns-mono _ (λ r' (m, k). (m, Moved-again h p owner _ r'.1 k))
          (after_step-Runs _ d p owner w.engine r.0 _ r.1 b.0 b.1 db st b.2 (λ again.
            drain-Runs f _ d p owner _ r.1 db st (rw b.1 (or_right _ _ (rw (← b.0) again) halts))
              b.2)))
