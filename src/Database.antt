-- ===== src/Database.antt =====
-- embedded/zeta.go and embedded/exec.go: the handle behind a mutex, and statements without rows.
pub mod Contract
pub mod Exec
pub mod Opens
pub mod Opening
pub mod Loop
pub mod Reference
pub mod Executes
use zeta_go.Prelude.{ℕ, zero, suc, Bool, true, false, Option, none, some, List, ◌+◌, if◌then◌else◌}
use zeta_go.Prelude.Int.{ℤ, pos, eq_ℤ, wrap}
use zeta_go.Machine.{
  Bytes, Ptr, Platform, World, OpenCall, at_path, at_path_mode, in_memory, returns, blocks, fatal,
  exhausted, M, pure, ◌>>=◌, ◌>>◌, deferring, get_go, set_go,
}
use zeta_go.Errors.{GoError, closed, Result, ok, err, ErrorKind, unknown, error_kind_from_code}
use zeta_go.Errors.Report.{consume_err_msg, stmt_error}
use zeta_go.Params.{Param, bind_params}
use zeta_go.Capi.{
  until_nul, zeta_row, zeta_done, c_string_of, free, zeta_open, zeta_close, zeta_errcode,
  zeta_changes, zeta_prepare, zeta_step, zeta_finalize,
}

pub record Database : Type 0 where
  -- whether `mu` is held
  pub locked : Bool
  pub handle : Ptr

abbrev pub is_nil : Ptr → Bool
is_nil none = true
is_nil (some p) = false

-- `Mode`, with the values of zeta.h
abbrev mode_lsm : ℤ
mode_lsm = pos 1

abbrev mode_quartz : ℤ
mode_quartz = pos 2

abbrev mode_memory : ℤ
mode_memory = pos 3

abbrev mode_flag_htap : ℤ
mode_flag_htap = pos 256

-- `Version`
abbrev library_version : Platform → Bytes
library_version e = e.version

-- `if err != nil { return nil, err }`
abbrev pub checked :
    {e : Platform} {G A B : Type 0} → Result A → (A → M e G (Result B)) → M e G (Result B)
checked (ok a) f = f a
checked (err x) f = pure (err x)

module _ {e : Platform} {G : Type 0} where
  -- The new handle, or the error that `kind` and the error string make.
  unfoldable pub opened : Ptr × Ptr → M e G (Result Ptr)
  opened (none, msg) = do x ← consume_err_msg msg unknown; pure (err x)
  opened (some h, msg) = pure (ok (some h))

  -- `Open`, `OpenMode` and `OpenMemory` give the handle of a new, unlocked `Database`.
  unfoldable pub open_path : Bytes → M e G (Result Ptr)
  unfolding opened
  open_path path = do
    cs ← c_string_of
    deferring (free cs) (do r ← zeta_open (at_path (until_nul path)); opened r)

  unfoldable pub open_mode : Bytes → ℤ → M e G (Result Ptr)
  unfolding opened
  open_mode path mode = do
    cs ← c_string_of
    deferring (free cs) (do r ← zeta_open (at_path_mode (until_nul path) (wrap 32 mode)); opened r)

  unfoldable pub open_memory : M e G (Result Ptr)
  unfolding opened
  open_memory = do r ← zeta_open in_memory; opened r

  -- The handle of a statement, or the error that a failed prepare makes.
  unfoldable pub prepared : Ptr → Ptr × Ptr → M e G (Result Ptr)
  prepared db (none, msg) = do
    code ← zeta_errcode db
    x ← consume_err_msg msg (error_kind_from_code code)
    pure (err x)
  prepared db (some h, msg) = pure (ok (some h))

  -- `switch rc` in the loop of `Exec`: the count at ZETA_DONE, another round at ZETA_ROW, an error.
  after_step : Ptr → Ptr → ℤ → M e G (Result ℤ) → M e G (Result ℤ)
  after_step db stmt rc rest =
      if eq_ℤ rc zeta_done
      then (do n ← zeta_changes db; pure (ok n))
      else if eq_ℤ rc zeta_row
      then rest
      else (do x ← stmt_error stmt rc; pure (err x))

  -- `for { rc := zeta_step(stmt); … }`: rows are dropped.
  unfoldable pub drain : ℕ → Ptr → Ptr → M e G (Result ℤ)
  unfolding after_step
  drain zero db stmt w = exhausted
  drain (suc f) db stmt w = (do rc ← zeta_step stmt; after_step db stmt rc (drain f db stmt)) w

module _ {e : Platform} where
  unfoldable pub lock : M e Database (Unit {0})
  lock w = if w.go.locked then blocks else set_go (record w.go { locked = true }) w

  unfoldable pub unlock : M e Database (Unit {0})
  unlock w = if w.go.locked then set_go (record w.go { locked = false }) w else fatal

  unfoldable pub prepare_locked : Bytes → M e Database (Result Ptr)
  unfolding prepared
  prepare_locked sql = do
    cs ← c_string_of
    deferring (free cs) (do d ← get_go; r ← zeta_prepare d.handle sql; prepared d.handle r)

  -- The part of `Exec` that has a statement, which `Tx.Exec` has too.
  unfoldable pub run_statement : ℕ → Ptr → List (Param e) → M e Database (Result ℤ)
  run_statement fuel stmt params =
      deferring (zeta_finalize stmt)
        (do b ← bind_params stmt params; d ← get_go; checked b (λ _. drain fuel d.handle stmt))

  exec_locked : ℕ → Bytes → List (Param e) → M e Database (Result ℤ)
  unfolding run_statement
  exec_locked fuel sql params = do
    r ← prepare_locked sql
    checked r (λ stmt. run_statement fuel stmt params)

  -- `(*Database).Exec`: the affected rows, or the error.
  unfoldable pub exec : ℕ → Bytes → List (Param e) → M e Database (Result ℤ)
  unfolding exec_locked
  exec fuel sql params = do
    lock
    deferring unlock
        (do d ← get_go; if is_nil d.handle then pure (err closed) else exec_locked fuel sql params)

  -- `(*Database).Close`
  unfoldable pub close : M e Database (Result (Unit {0}))
  close = do
    lock
    deferring unlock (do
      d ← get_go
      if is_nil d.handle
          then pure (ok tt)
          else (do zeta_close d.handle; set_go (record d { handle = none }); pure (ok tt)))
