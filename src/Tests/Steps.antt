-- ===== src/Tests/Steps.antt =====
-- Single operations on the small engine.
use zeta_go.Prelude.{◌≡◌, refl, true, false, none, some, List, [], ◌∷◌, arith}
use zeta_go.Prelude.Int.{ℤ, pos, negsuc}
use zeta_go.Machine.{Heap, World, Obj, put, transaction, statement}
use zeta_go.Machine.Rules.{Returns}
use zeta_go.Machine.Heaps.{At}
use zeta_go.Errors.{ok}
use zeta_go.Params.Reference.{all_bound, Agrees, bind_params-Agrees}
use zeta_go.Capi.{until_nul}
use zeta_go.Params.{bind_params}
use zeta_go.Columns.{Dest, to_any, to_int, to_int32, an_int32, scan_column}
use zeta_go.Columns.Bounds.{Narrows, scan_column-to_int32}
use zeta_go.Database.{Database, close}
use zeta_go.Database.Contract.{held, idle}
use zeta_go.Database.Executes.{Executes, exec-Executes}
use zeta_go.Database.Exec.{without, close-At}
use zeta_go.Rows.{Rows, next}
use zeta_go.Rows.Protocol.{Iterates, reading, Advances, next-Advances}
use zeta_go.Rows.Selects.{Selects, read_all, read_all-Selects}
use zeta_go.Tx.Selects.{tx_read_all, tx_read_all-Selects}
use zeta_go.Tx.{Tx, commit, rollback, exec, query}
use zeta_go.Tx.Lifecycle.{Transacts, active}
use zeta_go.Tx.Sessions.{TxCall, execs, queries, commits, rollbacks}
use zeta_go.Tx.Executes.{tx_exec-Executes}
use zeta_go.Tx.Protocol.{Phase, Traces, InPhase, answers_to, answers_to-Traces}
use zeta_go.Tests.{
  engine, one_database, one_database-fresh, at_rest, at_rest-IsReady, two_steps, two_columns,
  params, reads,
}

-- A second object beside the database.
abbrev with_object : Obj → Heap
with_object o = put one_database 1 (some o)

abbrev world : {G : Type 0} → G → Obj → World engine G
world g o = record { engine = true; heap = with_object o; next = 2; go = g }

world-At : {G : Type 0} (g : G) (o : Obj) → At (with_object o) g (world g o)
world-At g o = record { heap = λ q. refl; go = refl; fresh = λ q l. ground arith }

abbrev at_a_row : Rows
at_a_row = record { stmt = some 1; is_closed = false; last_err = none; at_row = true }

abbrev open_rows : World engine Database
open_rows = world (held (some 0)) (statement none true)

open_rows-Iterates : Iterates one_database (some 0) at_a_row open_rows
open_rows-Iterates =
    reading 1 none true true open_rows refl (λ _. refl)
      (world-At (held (some 0)) (statement none true))

next-Advances_example :
    Returns (next at_a_row open_rows) (λ r. Advances one_database (some 0) r.0.0 r.0.1 r.1)
next-Advances_example = next-Advances (some 0) at_a_row open_rows open_rows-Iterates

scan_column-to_int32_example :
    Returns
      (scan_column {G = Database} (some 1) (pos 0) to_int32 open_rows)
      (λ r. (m : ℤ) × (r.0 ≡ ok (an_int32 m)) × Narrows (negsuc 4) m)
scan_column-to_int32_example =
    scan_column-to_int32 1 none (pos 0) open_rows refl
      (world-At (held (some 0)) (statement none true)) refl

bind_params-Agrees_example :
    Returns (bind_params (some 1) params open_rows) (
      Agrees (with_object (statement none true)) (held (some 0)) (all_bound engine 1 1 params true))
bind_params-Agrees_example =
    bind_params-Agrees 1 none true refl params true open_rows
      (record { at = world-At (held (some 0)) (statement none true); engine = refl })

exec-Executes_example : Returns (zeta_go.Database.exec 2 (83 ∷ []) params at_rest) (λ r.
    Executes engine 0
      (λ n s. engine.prepare s n 0 (until_nul (83 ∷ [])))
      params
      false
      r.0
      r.1.engine
    × At one_database (idle (some 0)) r.1)
exec-Executes_example = exec-Executes at_rest at_rest-IsReady 2 0 (83 ∷ []) params two_steps refl

-- One destination for each column of the engine's rows.
abbrev two_dests : List Dest
two_dests = to_int ∷ to_any ∷ []

read_all-Selects_example : Returns (read_all 2 (83 ∷ []) params two_dests at_rest) (λ r.
    Selects engine 0
      (λ n s. engine.prepare s n 0 (until_nul (83 ∷ [])))
      params
      two_dests
      false
      r.0
      r.1.engine
    × At one_database (idle (some 0)) r.1)
read_all-Selects_example =
    read_all-Selects at_rest at_rest-IsReady 2 0 (83 ∷ []) params two_dests two_steps refl

close-At_example :
    Returns
      (close at_rest)
      (λ r. (r.0 ≡ ok tt) × At (without one_database (some 0)) (idle none) r.1)
close-At_example =
    close-At (some 0) at_rest refl
      (record { heap = λ q. refl; go = refl; fresh = one_database-fresh })

abbrev running : Tx
running = record { handle = some 1; done = false }

abbrev in_tx : World engine Database
in_tx = world (idle (some 0)) transaction

in_tx-Transacts : Transacts one_database (some 0) running in_tx
in_tx-Transacts = active 1 in_tx refl (world-At (idle (some 0)) transaction)

tx_exec-Executes_example : Returns (exec 2 running (83 ∷ []) params in_tx) (λ r.
    Executes engine 0
      (λ n s. engine.txn_prepare s n 1 (until_nul (83 ∷ [])))
      params
      true
      r.0
      r.1.engine
    × At (with_object transaction) (idle (some 0)) r.1)
tx_exec-Executes_example =
    tx_exec-Executes in_tx 2 0 1 (83 ∷ []) params two_steps refl refl
      (world-At (idle (some 0)) transaction)

tx_read_all-Selects_example : Returns (tx_read_all 2 running (83 ∷ []) params two_dests in_tx) (λ r.
    Selects engine 0
      (λ n s. engine.txn_prepare s n 1 (until_nul (83 ∷ [])))
      params
      two_dests
      true
      r.0
      r.1.engine
    × At (with_object transaction) (idle (some 0)) r.1)
tx_read_all-Selects_example =
    tx_read_all-Selects in_tx 2 0 1 (83 ∷ []) params two_dests two_steps refl refl
      (world-At (idle (some 0)) transaction)

abbrev ways : List (TxCall engine)
ways = execs [] params ∷ queries [] params reads ∷ commits ∷ execs [] [] ∷ rollbacks ∷ commits ∷ []

answers_to-Traces_example : Returns (answers_to 2 ways running in_tx) (λ r.
    (q : Phase) × Traces engine zeta_go.Tx.Protocol.running ways r.0.0 q
    × InPhase one_database (some 0) q r.0.1 r.1)
answers_to-Traces_example =
    answers_to-Traces 2 (some 0) two_steps two_columns zeta_go.Tx.Protocol.running ways running
      in_tx refl (refl, in_tx-Transacts)
