-- ===== src/Tx/Executes.antt =====
-- `Exec` in a transaction against what the engine does with the statement.
use zeta_go.Prelude.{ℕ, ◌≡◌, refl, false, some, List, arith}
use zeta_go.Machine.{Bytes, Platform, World, Heap, put, database, transaction, statement, c_string}
use zeta_go.Machine.Rules.{Returns, Returns-chain}
use zeta_go.Machine.Heaps.{At, get_go-chain}
use zeta_go.Machine.Known.{In}
use zeta_go.Capi.{until_nul}
use zeta_go.Capi.Known.{c_string_of_known, zeta_txn_prepare_known}
use zeta_go.Params.{Param}
use zeta_go.Database.{Database}
use zeta_go.Database.Contract.{Halts, held, idle}
use zeta_go.Database.Reference.{Prepared, prepared_known, free-Prepared}
use zeta_go.Database.Executes.{Executes, executed, critical_known}
use zeta_go.Tx.{prepare_locked, exec_guarded, exec_locked, exec}

module _ {e : Platform} {s : e.State} {h : Heap} (d : ℕ) (live : h d ≡ some database) (p : ℕ)
    (lp : h p ≡ some transaction) where
  pub prepare_locked_known :
      (sql : Bytes) (w : World e Database)
      → In s h (held (some d)) w
      → Returns (prepare_locked (record { handle = some p; done = false }) sql w) (λ r.
        Prepared s h
          (held (some d))
          d
          (statement (some p) false)
          (λ n s. e.txn_prepare s n p (until_nul sql))
          r.0
          r.1)
  unfolding prepare_locked
  prepare_locked_known sql w i = Returns-chain _ _ (c_string_of_known w i) (λ r (n, here, fresh, b).
      let db : put h n (some c_string) d ≡ some database = ground (arith, live, fresh) in
      let txn : put h n (some c_string) p ≡ some transaction = ground (arith, lp, fresh) in
      rw here (
        Returns-chain _ _
          (get_go-chain r.1 b.at _ (
            Returns-chain _ _ (zeta_txn_prepare_known r.1 b p sql txn)
              (λ r' c. prepared_known d db _ _ r'.0 r'.1 c)))
          (λ r' c. free-Prepared d n _ _ r'.0 r'.1 fresh c)))

-- `Exec` in a transaction that has not ended, on an open database: the engine prepares the statement in
-- the transaction and gets the parameters in order, each as the value that it is for the engine, and
-- then is stepped to the statement's end; whatever comes first ends it, and the statement that was
-- prepared is finalized. `Exec` returns what that means, and leaves the C objects, the handle and the
-- mutex as they were, if every statement ends within the fuel.
pub tx_exec-Executes :
    {e : Platform} {h : Heap} (w : World e Database) (fuel d p : ℕ) (sql : Bytes)
    (params : List (Param e))
    → Halts e fuel
    → h d ≡ some database
    → h p ≡ some transaction
    → At h (idle (some d)) w
    → Returns (exec fuel (record { handle = some p; done = false }) sql params w) (λ r.
      Executes e d (λ n s. e.txn_prepare s n p (until_nul sql)) params w.engine r.0 r.1.engine
      × At h (idle (some d)) r.1)
unfolding exec exec_guarded exec_locked
tx_exec-Executes {h = h} w fuel d p sql params halts live lp a =
    critical_known _ _
      (λ w' j. get_go-chain w' j.at _ (
        Returns-chain _ _ (prepare_locked_known d live p lp sql w' j)
          (λ r b. executed h d live fuel (some p) _ params r.0 r.1 halts b)))
      w (record { at = a; engine = refl })
