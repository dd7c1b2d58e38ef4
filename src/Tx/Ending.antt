-- ===== src/Tx/Ending.antt =====
-- `Commit` and `Rollback`: a transaction's handle is freed once.
use zeta_go.Prelude.{ℕ, ◌≡◌, refl, sym, ap, inl, inr, Bool-cases, true, false, none, some}
use mathlib.Core.Path.{subst}
use zeta_go.Prelude.Int.{ℤ, eq_ℤ}
use zeta_go.Machine.{Ptr, Platform, World, pure, Heap, put, transaction}
use zeta_go.Machine.Rules.{Returns, Returns-returns, Returns-chain, Returns-mono}
use zeta_go.Machine.Heaps.{At, At-heap}
use zeta_go.Capi.{zeta_ok}
use zeta_go.Capi.Rules.{Reports, Says, zeta_commit-Returns, zeta_rollback-Returns}
use zeta_go.Errors.{ok, err, tx_done}
use zeta_go.Errors.Rules.{put_fresh, put_same, consume_err_msg-Returns}
use zeta_go.Database.{Database}
use zeta_go.Database.Contract.{held, idle}
use zeta_go.Database.Exec.{critical_with}
use zeta_go.Tx.{Tx, committed, end_commit, end_rollback, commit, rollback}
use zeta_go.Tx.Lifecycle.{Transacts, active, over}

module _ {e : Platform} {G : Type 0} {h : Heap} where
  pub committed-Returns :
      (g : G) (rc : ℤ) (msg : Ptr) (w : World e G)
      → Reports h g rc msg w
      → Returns (committed (rc, msg) w) (λ r. At h g r.1)
  unfolding committed
  committed-Returns g rc msg w (silent, a) = elim (Bool-cases (eq_ℤ rc zeta_ok)) [
    | inl good ↦
        rw (good, committed) (Returns-returns _ (subst (λ m. Says h g m w) (silent good) a))
    | inr bad ↦
        rw (bad, committed)
          (Returns-chain _ _ (consume_err_msg-Returns w msg _ a) (λ r b. Returns-returns _ b))
  ]

module _ {e : Platform} {h : Heap} (ptr : Ptr) where
  -- A finished transaction with `s` left in its handle.
  module _ (s : Ptr) (w : World e Database) (a : At h (idle ptr) w) where
    pub commit-over :
        Returns
          (commit (record { handle = s; done = true }) w)
          (λ r. (r.0 ≡ (err tx_done, record { handle = s; done = true })) × At h (idle ptr) r.1)
    unfolding commit
    commit-over =
        critical_with (pure (err tx_done, record { handle = s; done = true }))
          (λ x. x ≡ (err tx_done, record { handle = s; done = true }))
          (λ w' b. Returns-returns _ (refl, b)) w a

    pub rollback-over :
        Returns
          (rollback (record { handle = s; done = true }) w)
          (λ r. (r.0 ≡ (ok tt, record { handle = s; done = true })) × At h (idle ptr) r.1)
    unfolding rollback
    rollback-over =
        critical_with (pure (ok tt, record { handle = s; done = true }))
          (λ x. x ≡ (ok tt, record { handle = s; done = true }))
          (λ w' b. Returns-returns _ (refl, b)) w a

  module _ (p : ℕ) (w : World e Database) (new : h p ≡ none)
      (a : At (put h p (some transaction)) (idle ptr) w) where
    commit-active :
        Returns
          (commit (record { handle = some p; done = false }) w)
          (λ r. (r.0.1 ≡ record { handle = none; done = true }) × At h (idle ptr) r.1)
    unfolding commit
    commit-active =
        critical_with (end_commit (record { handle = some p; done = false }))
          (λ x. x.1 ≡ record { handle = none; done = true })
          (λ w' b. Returns-chain _ _ (zeta_commit-Returns w' b p (put_same h p _)) (λ r c.
            Returns-chain _ _ (committed-Returns (held ptr) r.0.0 r.0.1 r.1 c)
              (λ r' d. Returns-returns _ (refl, At-heap (put_fresh h p _ new) d))))
          w a

    rollback-active :
        Returns
          (rollback (record { handle = some p; done = false }) w)
          (λ r. (r.0.1 ≡ record { handle = none; done = true }) × At h (idle ptr) r.1)
    unfolding rollback
    rollback-active =
        critical_with (end_rollback (record { handle = some p; done = false }))
          (λ x. x.1 ≡ record { handle = none; done = true })
          (λ w' b.
            Returns-chain _ _ (zeta_rollback-Returns w' b p (put_same h p _))
              (λ r c. Returns-returns _ (refl, At-heap (put_fresh h p _ new) c)))
          w a

-- A transaction that has ended, its handle freed.
abbrev pub Ended : {e : Platform} → Heap → Ptr → Tx → World e Database → Type 0
Ended h ptr t w = (t.done ≡ true) × At h (idle ptr) w × Transacts h ptr t w

module _ {e : Platform} {h : Heap} (ptr : Ptr) where
  ended :
      (t : Tx) (s : Ptr) (w : World e Database)
      → t ≡ record { handle = s; done = true }
      → At h (idle ptr) w
      → Ended h ptr t w
  ended t s w q a =
      (ap (λ (t : Tx). t.done) q, a, subst (λ t. Transacts h ptr t w) (sym q) (over s w a))

  -- `Commit` of a transaction that is active or over returns, and it is over whatever the engine
  -- answers: its handle is freed, once, and the mutex is free.
  pub commit-Ended :
      (t : Tx) (w : World e Database)
      → Transacts h ptr t w
      → Returns (commit t w) (λ r. Ended h ptr r.0.1 r.1)
  commit-Ended t w (over s _ a) =
      Returns-mono _ (λ r b. ended r.0.1 s r.1 (ap (λ x. x.1) b.0) b.1) (commit-over ptr s w a)
  commit-Ended t w (active p _ new a) =
      Returns-mono _ (λ r b. ended r.0.1 none r.1 b.0 b.1) (commit-active ptr p w new a)

  -- `Rollback` of a transaction that is active or over returns, and it is over whatever the engine
  -- answers: its handle is freed, once, and the mutex is free.
  pub rollback-Ended :
      (t : Tx) (w : World e Database)
      → Transacts h ptr t w
      → Returns (rollback t w) (λ r. Ended h ptr r.0.1 r.1)
  rollback-Ended t w (over s _ a) =
      Returns-mono _ (λ r b. ended r.0.1 s r.1 (ap (λ x. x.1) b.0) b.1) (rollback-over ptr s w a)
  rollback-Ended t w (active p _ new a) =
      Returns-mono _ (λ r b. ended r.0.1 none r.1 b.0 b.1) (rollback-active ptr p w new a)
