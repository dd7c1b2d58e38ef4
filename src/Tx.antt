-- ===== src/Tx.antt =====
-- embedded/txn.go: transactions of a `Database`.
pub mod Lifecycle
pub mod Ending
pub mod Sessions
pub mod Protocol
pub mod Executes
pub mod Selects
use zeta_go.Prelude.{ℕ, Bool, true, false, Option, none, some, List, not, if◌then◌else◌}
use zeta_go.Prelude.Int.{ℤ, pos, wrap, eq_ℤ}
use zeta_go.Machine.{Bytes, Ptr, Platform, M, pure, ◌>>=◌, ◌>>◌, deferring, get_go}
use zeta_go.Errors.{GoError, closed, tx_done, zeta, codes, Result, ok, err, error_kind_from_code}
use zeta_go.Errors.Report.{consume_err_msg}
use zeta_go.Params.{Param, bind_params}
use zeta_go.Capi.{
  zeta_ok, c_string_of, free, zeta_errcode, zeta_begin_isolation, zeta_txn_prepare, zeta_commit,
  zeta_rollback, zeta_finalize,
}
use zeta_go.Database.{Database, is_nil, checked, lock, unlock, prepared, run_statement}
use zeta_go.Rows.{Rows, start_rows}

pub record Tx : Type 0 where
  pub handle : Ptr
  pub done : Bool

-- `Isolation`
abbrev pub isolation_snapshot : ℤ
isolation_snapshot = pos 0

abbrev pub isolation_serializable : ℤ
isolation_serializable = pos 1

-- What is left of a finished transaction.
abbrev pub finished : Tx → Tx
finished t = record t { handle = none; done = true }

-- The error of a commit or a rollback that has failed.
abbrev pub rollback_failed : ℤ → GoError
rollback_failed rc =
    zeta (record { kind = error_kind_from_code rc; text = codes "rollback failed" })

module _ {e : Platform} {G : Type 0} where
  -- The end of a commit: nil, or the error that the return code and the error string make.
  unfoldable pub committed : ℤ × Ptr → M e G (Result (Unit {0}))
  committed (rc, msg) =
      if not (eq_ℤ rc zeta_ok)
      then (do x ← consume_err_msg msg (error_kind_from_code rc); pure (err x))
      else pure (ok tt)

module _ {e : Platform} where
  begun : Result Ptr → M e Database (Result Tx)
  begun (ok h) = pure (ok (record { handle = h; done = false }))
  begun (err x) = pure (err x)

  -- `(*Database).BeginWithIsolation`
  unfoldable pub begin_with_isolation : ℤ → M e Database (Result Tx)
  unfolding begun prepared
  begin_with_isolation level = do
    lock
    deferring unlock (do
      d ← get_go
      if is_nil d.handle then pure (err closed) else (do
        h ← zeta_begin_isolation d.handle (wrap 32 level)
        r ← prepared d.handle h
        begun r))

  -- `(*Database).Begin`
  unfoldable pub begin : M e Database (Result Tx)
  unfolding begin_with_isolation
  begin = begin_with_isolation isolation_snapshot

  -- `(*Tx).prepareLocked`
  unfoldable pub prepare_locked : Tx → Bytes → M e Database (Result Ptr)
  unfolding prepared
  prepare_locked t sql = do
    cs ← c_string_of
    deferring (free cs) (do d ← get_go; r ← zeta_txn_prepare t.handle sql; prepared d.handle r)

  exec_locked : ℕ → Tx → Bytes → List (Param e) → M e Database (Result ℤ)
  unfolding run_statement
  exec_locked fuel t sql params = do
    r ← prepare_locked t sql
    checked r (λ stmt. run_statement fuel stmt params)

  -- The guards of `Exec`, under the mutex.
  exec_guarded : ℕ → Tx → Bytes → List (Param e) → Database → M e Database (Result ℤ)
  unfolding exec_locked
  exec_guarded fuel t sql params d =
      if t.done
      then pure (err tx_done)
      else if is_nil d.handle
      then pure (err closed)
      else exec_locked fuel t sql params

  -- `(*Tx).Exec`
  unfoldable pub exec : ℕ → Tx → Bytes → List (Param e) → M e Database (Result ℤ)
  unfolding exec_guarded
  exec fuel t sql params = do
    lock
    deferring unlock (do d ← get_go; exec_guarded fuel t sql params d)

  -- `(*Tx).Query`
  unfoldable pub query : Tx → Bytes → List (Param e) → M e Database (Result Rows)
  unfolding start_rows
  query t sql params = do
    lock
    d ← get_go
    if t.done
        then (do unlock; pure (err tx_done))
        else if is_nil d.handle
        then (do unlock; pure (err closed))
        else (do r ← prepare_locked t sql; start_rows params r)

  -- The handle goes to `zeta_commit`, which frees it whatever it returns.
  end_commit : Tx → M e Database (Result (Unit {0}) × Tx)
  unfolding committed
  end_commit t = do c ← zeta_commit t.handle; r ← committed c; pure (r, finished t)

  end_rollback : Tx → M e Database (Result (Unit {0}) × Tx)
  end_rollback t = do
    rc ← zeta_rollback t.handle
    pure (if not (eq_ℤ rc zeta_ok) then err (rollback_failed rc) else ok tt, finished t)

  -- `(*Tx).Commit`: the error, and the transaction.
  unfoldable pub commit : Tx → M e Database (Result (Unit {0}) × Tx)
  unfolding end_commit
  commit t = do lock; deferring unlock (if t.done then pure (err tx_done, t) else end_commit t)

  -- `(*Tx).Rollback`
  unfoldable pub rollback : Tx → M e Database (Result (Unit {0}) × Tx)
  unfolding end_rollback
  rollback t = do lock; deferring unlock (if t.done then pure (ok tt, t) else end_rollback t)
