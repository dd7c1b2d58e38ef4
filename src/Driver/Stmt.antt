-- ===== src/Driver/Stmt.antt =====
-- embedded/driver.go: prepared statements.
pub mod Context
pub mod Prepares
pub mod Reuse
pub mod Executes
pub mod Runs
pub mod Contexts
use zeta_go.Prelude.{ℕ, Bool, true, false, not, ◌&&◌, Option, none, some, List, if◌then◌else◌}
use zeta_go.Prelude.Int.{ℤ, eq_ℤ, negsuc}
use zeta_go.Machine.{Bytes, Ptr, Platform, M, pure, ◌>>=◌, ◌>>◌, deferring, get_go}
use zeta_go.Errors.{GoError, closed, stmt_closed, context_ended, Result, ok, err}
use zeta_go.Errors.Report.{stmt_error}
use zeta_go.Capi.{
  zeta_ok, zeta_row, zeta_done, c_string_of, free, zeta_prepare, zeta_txn_prepare, zeta_finalize,
  zeta_reset, zeta_step,
}
use zeta_go.Database.{is_nil, checked, prepared, drain}
use zeta_go.Driver.Values.{DriverValue, NamedValue, named_to_values, bind_values}
use zeta_go.Driver.Conn.{Conn}

pub record Stmt : Type 0 where
  pub handle : Ptr
  pub query : Bytes
  -- whether `handle` was prepared in a transaction
  pub in_txn : Bool
  pub is_closed : Bool

-- `stmt{c: c, query: query}`
abbrev pub new_stmt : Bytes → Stmt
new_stmt sql = record { handle = none; query = sql; in_txn = false; is_closed = false }

-- `a == b` of Go's bool
abbrev pub same : Bool → Bool → Bool
same true b = b
same false b = not b

-- The test `s.h != nil && s.inTxn == want`
abbrev pub reusable : Stmt → Bool → Bool
reusable s want = not (is_nil s.handle) && same s.in_txn want

module _ {e : Platform} where
  finalize_old : Stmt → M e Conn (Unit {0})
  finalize_old s = if is_nil s.handle then pure tt else zeta_finalize s.handle

  -- `zeta_txn_prepare` or `zeta_prepare`, by whether a transaction is open.
  prepare_in : Bool → Conn → Bytes → M e Conn (Ptr × Ptr)
  prepare_in want c sql = if want then zeta_txn_prepare c.txn sql else zeta_prepare c.handle sql

  -- The statement with the new handle, or without one.
  pub renewed : Stmt → Bool → Result Ptr → M e Conn (Result (Unit {0}) × Stmt)
  renewed s want (ok h) = pure (ok tt, record s { handle = h; in_txn = want })
  renewed s want (err x) = pure (err x, record s { handle = none })

  pub prepare_fresh : Stmt → Bool → Conn → M e Conn (Result (Unit {0}) × Stmt)
  unfolding prepare_in renewed
  prepare_fresh s want c = do
    cs ← c_string_of
    r ← deferring (free cs) (do p ← prepare_in want c s.query; prepared c.handle p)
    renewed s want r

  -- The part of `ensurePrepared` that prepares anew.
  prepare_anew : Stmt → Bool → Conn → M e Conn (Result (Unit {0}) × Stmt)
  unfolding finalize_old prepare_fresh
  prepare_anew s want c = do finalize_old s; prepare_fresh s want c

  -- `(*stmt).ensurePrepared`
  unfoldable pub ensure_prepared : Stmt → M e Conn (Result (Unit {0}) × Stmt)
  unfolding prepare_anew
  ensure_prepared s = do
    c ← get_go
    if s.is_closed
        then pure (err stmt_closed, s)
        else if is_nil c.handle
        then pure (err closed, s)
        else if reusable s (not (is_nil c.txn))
        then pure (ok tt, s)
        else prepare_anew s (not (is_nil c.txn)) c

  -- `(*conn).prepare`
  unfoldable pub prepare : Bytes → M e Conn (Result Stmt)
  prepare sql = do
    c ← get_go
    if is_nil c.handle
        then pure (err closed)
        else (do r ← ensure_prepared (new_stmt sql); checked r.0 (λ _. pure (ok r.1)))

  -- `(*conn).PrepareContext`
  unfoldable pub prepare_context : Bool → Bytes → M e Conn (Result Stmt)
  prepare_context ended sql = if ended then pure (err context_ended) else prepare sql

  -- `(*stmt).Close`
  unfoldable pub close : Stmt → M e Conn (Result (Unit {0}) × Stmt)
  close s =
      if is_nil s.handle
      then pure (ok tt, record s { is_closed = true })
      else (do zeta_finalize s.handle; pure (ok tt, record s { is_closed = true; handle = none }))

  reset_then_bind : Stmt → List (DriverValue e) → M e Conn (Result (Unit {0}))
  reset_then_bind s args = do
    rc ← zeta_reset s.handle
    if not (eq_ℤ rc zeta_ok)
        then (do x ← stmt_error s.handle rc; pure (err x))
        else bind_values s.handle args

  -- The rest of an operation on the statement, if it is prepared.
  unfoldable pub on_prepared :
      {A : Type 0}
      → Result (Unit {0})
      → Stmt
      → (Stmt → M e Conn (Result A))
      → M e Conn (Result A × Stmt)
  on_prepared (err x) s k = pure (err x, s)
  on_prepared (ok u) s k = do r ← k s; pure (r, s)

  -- `(*stmt).resetAndBind`
  unfoldable pub reset_and_bind : Stmt → List (DriverValue e) → M e Conn (Result (Unit {0}) × Stmt)
  unfolding reset_then_bind on_prepared
  reset_and_bind s args = do
    r ← ensure_prepared s
    on_prepared r.0 r.1 (λ s'. reset_then_bind s' args)

  run_to_end : ℕ → Stmt → M e Conn (Result ℤ)
  run_to_end fuel s = do c ← get_go; drain fuel c.handle s.handle

  -- `(*stmt).Exec`: the affected rows, or the error.
  unfoldable pub exec : ℕ → Stmt → List (DriverValue e) → M e Conn (Result ℤ × Stmt)
  unfolding run_to_end on_prepared
  exec fuel s args = do r ← reset_and_bind s args; on_prepared r.0 r.1 (run_to_end fuel)

  with_values :
      {A : Type 0}
      → Bool
      → Stmt
      → Result (List (DriverValue e))
      → (Stmt → List (DriverValue e) → M e Conn (Result A × Stmt))
      → M e Conn (Result A × Stmt)
  with_values ended s (err x) k = pure (err x, s)
  with_values ended s (ok vals) k = if ended then pure (err context_ended, s) else k s vals

  -- `(*stmt).ExecContext`
  unfoldable pub exec_context : ℕ → Bool → Stmt → List (NamedValue e) → M e Conn (Result ℤ × Stmt)
  unfolding with_values
  exec_context fuel ended s args = with_values ended s (named_to_values args) (exec fuel)

-- What `Query` knows of the rows: `pending` if a row has been fetched and not yet returned.
pub record RowState : Type 0 where
  pub pending : Bool
  pub done : Bool
  pub is_closed : Bool

module _ {e : Platform} where
  -- The first step of `Query`.
  unfoldable pub first_step : Stmt → M e Conn (Result RowState)
  first_step s = do
    rc ← zeta_step s.handle
    if eq_ℤ rc zeta_row
        then pure (ok (record { pending = true; done = false; is_closed = false }))
        else if eq_ℤ rc zeta_done
        then pure (ok (record { pending = false; done = true; is_closed = false }))
        else (do x ← stmt_error s.handle rc; pure (err x))

  -- `(*stmt).Query`
  unfoldable pub query : Stmt → List (DriverValue e) → M e Conn (Result RowState × Stmt)
  unfolding first_step on_prepared
  query s args = do r ← reset_and_bind s args; on_prepared r.0 r.1 first_step

  -- `(*stmt).QueryContext`
  unfoldable pub query_context :
      Bool → Stmt → List (NamedValue e) → M e Conn (Result RowState × Stmt)
  unfolding with_values
  query_context ended s args = with_values ended s (named_to_values args) query
