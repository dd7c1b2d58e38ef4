-- ===== src/Driver/Conn.antt =====
-- embedded/driver.go: connections and their transaction.
pub mod Calls
pub mod Sessions
use Prim.Native.Nat.{compare, Ordering}
use zeta_go.Prelude.{ℕ, Bool, not, Option, none, some, if◌then◌else◌}
use zeta_go.Prelude.Int.{ℤ, pos, negsuc, eq_ℤ}
use zeta_go.Machine.{Bytes, Ptr, Platform, M, pure, ◌>>=◌, ◌>>◌, get_go, set_go}
use zeta_go.Errors.{
  closed, tx_done, context_ended, nested_transaction, bad_isolation, Result, ok, err,
}
use zeta_go.Capi.{zeta_ok, zeta_close, zeta_rollback, zeta_begin_isolation, zeta_commit}
use zeta_go.Database.{is_nil, checked, prepared, open_path}
use zeta_go.Tx.{isolation_snapshot, isolation_serializable, committed, rollback_failed}

pub record Conn : Type 0 where
  pub handle : Ptr
  -- not NULL while a transaction is open
  pub txn : Ptr

module _ {e : Platform} {G : Type 0} where
  -- `openConn`: the connection is new, and no object of the world yet.
  unfoldable pub open_conn : Bytes → M e G (Result Conn)
  open_conn dsn = do
    r ← open_path dsn
    checked r (λ h. pure (ok (record { handle = h; txn = none })))

module _ {e : Platform} where
  unfoldable pub roll_back_open : M e Conn (Unit {0})
  roll_back_open = do
    c ← get_go
    if is_nil c.txn then pure tt else (do zeta_rollback c.txn; set_go (record c { txn = none }))

  unfoldable pub close_handle : M e Conn (Unit {0})
  close_handle = do
    c ← get_go
    if is_nil c.handle
        then pure tt
        else (do zeta_close c.handle; set_go (record c { handle = none }))

  -- `(*conn).Close`
  unfoldable pub close : M e Conn (Result (Unit {0}))
  unfolding roll_back_open close_handle
  close = do roll_back_open; close_handle; pure (ok tt)

  begun : Result Ptr → M e Conn (Result (Unit {0}))
  begun (ok h) = do c ← get_go; set_go (record c { txn = h }); pure (ok tt)
  begun (err x) = pure (err x)

  -- `(*conn).beginTx`
  unfoldable pub begin_at : ℤ → M e Conn (Result (Unit {0}))
  unfolding begun
  begin_at level = do
    c ← get_go
    if is_nil c.handle
        then pure (err closed)
        else if not (is_nil c.txn)
        then pure (err nested_transaction)
        else (do h ← zeta_begin_isolation c.handle level; r ← prepared c.handle h; begun r)

  -- `(*conn).Begin`
  unfoldable pub begin : M e Conn (Result (Unit {0}))
  unfolding begin_at
  begin = begin_at isolation_snapshot

-- The switch of `BeginTx` on the levels of database/sql, which count from LevelDefault = 0 to
-- LevelLinearizable = 7.
level_of : ℕ → Option ℤ
level_of n = elim (compare n 6) [
  | Ordering.lt ↦ some isolation_snapshot
  | Ordering.eq ↦ some isolation_serializable
  | Ordering.gt ↦ none
]

-- `none` where the level is not supported.
unfoldable pub isolation_of : ℤ → Option ℤ
unfolding level_of
isolation_of (pos n) = level_of n
isolation_of (negsuc n) = none

module _ {e : Platform} where
  begin_mapped : ℤ → Option ℤ → M e Conn (Result (Unit {0}))
  begin_mapped asked none = pure (err (bad_isolation asked))
  begin_mapped asked (some level) = begin_at level

  -- `(*conn).BeginTx`; `ended` is whether the context has ended.
  unfoldable pub begin_tx : Bool → ℤ → M e Conn (Result (Unit {0}))
  unfolding begin_mapped
  begin_tx ended asked =
      if ended then pure (err context_ended) else begin_mapped asked (isolation_of asked)

  -- `(*tx).Commit`
  unfoldable pub commit : M e Conn (Result (Unit {0}))
  commit = do
    c ← get_go
    if is_nil c.txn
        then pure (err tx_done)
        else (do r ← zeta_commit c.txn; set_go (record c { txn = none }); committed r)

  -- `(*tx).Rollback`
  unfoldable pub rollback : M e Conn (Result (Unit {0}))
  rollback = do
    c ← get_go
    if is_nil c.txn then pure (err tx_done) else (do
      rc ← zeta_rollback c.txn
      set_go (record c { txn = none })
      pure (if not (eq_ℤ rc zeta_ok) then err (rollback_failed rc) else ok tt))
