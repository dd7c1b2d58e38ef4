-- ===== src/Devlisten.antt =====
-- embedded/devlisten.go: the engine's listeners of the developer build.
pub mod Lifecycle
use zeta_go.Prelude.{Bool, true, false, not, none, some, if◌then◌else◌}
use zeta_go.Prelude.Int.{ℤ, eq_ℤ}
use zeta_go.Machine.{
  Bytes, Ptr, Platform, Listener, pgwire, mysqlwire, M, pure, ◌>>=◌, ◌>>◌, deferring, get_go,
}
use zeta_go.Errors.{GoError, zeta, closed, codes, Result, ok, err, error_kind_from_code}
use zeta_go.Capi.{zeta_ok, c_string_of, free, zeta_start, zeta_stop_listeners}
use zeta_go.Database.{Database, is_nil, lock, unlock}
use zeta_go.Tx.{committed}

-- The error of a failed stop.
abbrev pub stop_failed : ℤ → GoError
stop_failed rc =
    zeta (record { kind = error_kind_from_code rc; text = codes "zeta_stop_listeners failed" })

module _ {e : Platform} where
  -- The body that `StartPgwireDev` and `StartMysqlwireDev` share; the test of the return code and
  -- the error string is that of `Commit`.
  start_listener : Listener → Bytes → M e Database (Result (Unit {0}))
  unfolding committed
  start_listener l addr = do
    lock
    deferring unlock (do
      d ← get_go
      if is_nil d.handle then pure (err closed) else (do
        cs ← c_string_of
        deferring (free cs) (do r ← zeta_start l d.handle addr; committed r)))

  -- `(*Database).StartPgwireDev`
  unfoldable pub start_pgwire_dev : Bytes → M e Database (Result (Unit {0}))
  unfolding start_listener
  start_pgwire_dev addr = start_listener pgwire addr

  -- `(*Database).StartMysqlwireDev`
  unfoldable pub start_mysqlwire_dev : Bytes → M e Database (Result (Unit {0}))
  unfolding start_listener
  start_mysqlwire_dev addr = start_listener mysqlwire addr

  -- `(*Database).StopDevListeners`
  unfoldable pub stop_dev_listeners : M e Database (Result (Unit {0}))
  stop_dev_listeners = do
    lock
    deferring unlock (do
      d ← get_go
      if is_nil d.handle then pure (err closed) else (do
        rc ← zeta_stop_listeners d.handle
        pure (if not (eq_ℤ rc zeta_ok) then err (stop_failed rc) else ok tt)))
