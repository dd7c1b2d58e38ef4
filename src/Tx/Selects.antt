-- ===== src/Tx/Selects.antt =====
-- A query in a transaction against what the engine does with it.
use zeta_go.Prelude.{ℕ, ◌≡◌, refl, false, Option, some, List}
use zeta_go.Machine.{Bytes, Platform, World, M, ◌>>=◌, get_go, Heap, database, transaction}
use zeta_go.Machine.Rules.{Returns, Returns-chain, Returns-assoc}
use zeta_go.Machine.Heaps.{At, get_go-chain}
use zeta_go.Capi.{until_nul}
use zeta_go.Errors.{GoError, Result}
use zeta_go.Params.{Param}
use zeta_go.Columns.{Dest}
use zeta_go.Database.{Database, lock}
use zeta_go.Database.Contract.{Halts, idle}
use zeta_go.Database.Executes.{lock_known}
use zeta_go.Rows.Fetches.{Answer}
use zeta_go.Rows.Selects.{Selects, fetch_query, start_rows_known}
use zeta_go.Tx.Executes.{prepare_locked_known}
use zeta_go.Tx.{Tx, prepare_locked, query}

module _ {e : Platform} where
  -- A client of `Query`: its rows as `Scan` reads them, until `Next` answers false, and `Err`.
  unfoldable pub tx_read_all :
      ℕ
      → Tx
      → Bytes
      → List (Param e)
      → List Dest
      → M e Database (Result (List (Answer e) × Option GoError))
  tx_read_all fuel t sql params ds = do r ← query t sql params; fetch_query fuel ds r

-- In a transaction that has not ended, on an open database, a client that calls `Query`, then `Next` and
-- `Scan` until `Next` answers false, and `Err`: if every statement ends within the fuel, all of them
-- return. The engine prepares the statement in the transaction and gets the parameters in order; if
-- either fails, the client gets the error. Otherwise it gets each row that the engine gives once and in
-- order, with what `Scan` reads of it for the destinations, and from `Err` nothing, or the error
-- that ended the statement. The statement that was prepared is finalized, and the C objects, the handle
-- and the mutex are left as they were.
pub tx_read_all-Selects :
    {e : Platform} {h : Heap} (w : World e Database) (fuel d p : ℕ) (sql : Bytes)
    (params : List (Param e)) (ds : List Dest)
    → Halts e fuel
    → h d ≡ some database
    → h p ≡ some transaction
    → At h (idle (some d)) w
    → Returns (tx_read_all fuel (record { handle = some p; done = false }) sql params ds w) (λ r.
      Selects e d (λ n s. e.txn_prepare s n p (until_nul sql)) params ds w.engine r.0 r.1.engine
      × At h (idle (some d)) r.1)
unfolding tx_read_all query
tx_read_all-Selects {h = h} w fuel d p sql params ds halts live lp a = Returns-assoc (lock w) _ _ (
    Returns-chain _ _ (lock_known (some d) w (record { at = a; engine = refl })) (λ r j.
      Returns-assoc (get_go r.1) _ _ (
        get_go-chain r.1 j.at _ (
          Returns-assoc (prepare_locked (record { handle = some p; done = false }) sql r.1) _ _ (
            Returns-chain _ _ (prepare_locked_known d live p lp sql r.1 j) (λ r' b.
              start_rows_known h (some d) d fuel _ params ds halts (some p) r'.0 r'.1 b))))))
