-- ===== src/Tests/Statements.antt =====
-- Prepared statements of the driver on the small engine.
use zeta_go.Prelude.{
  ◌≡◌, refl, true, false, none, some, List, [], ◌∷◌, inl, arith, ◌==◌, if◌then◌else◌,
}
use zeta_go.Machine.{Heap, World, Obj, put, ◌>>=◌, database, transaction, statement}
use zeta_go.Machine.Rules.{Returns}
use zeta_go.Machine.Heaps.{At}
use zeta_go.Errors.{ok}
use zeta_go.Prelude.Int.{pos, wrap}
use zeta_go.Database.{open_path, open_mode, open_memory}
use zeta_go.Database.Contract.{Moved}
use zeta_go.Database.Opening.{Opens, open-Opens}
use zeta_go.Machine.{at_path, at_path_mode, in_memory}
use zeta_go.Driver.Conn.{Conn, open_conn}
use zeta_go.Driver.Conn.Sessions.{begins, commits}
use zeta_go.Driver.Conn.Calls.{nowhere}
use zeta_go.Prelude.{map, ◌⊎◌}
use zeta_go.Prelude.Lists.{All}
use zeta_go.Params.{Param}
use zeta_go.Errors.{err, named_parameter}
use zeta_go.Driver.Values.{DriverValue, NamedValue, named_to_values}
use zeta_go.Driver.Values.Positional.{HasName, named_to_values-HasName}
use zeta_go.Driver.Stmt.{Stmt, ensure_prepared, exec}
use zeta_go.Driver.Stmt.Executes.{on_handle, Reruns, stmt_exec-Reruns}
use zeta_go.Driver.Stmt.Context.{Holds, holding, Ensures, ensure_prepared-Ensures}
use zeta_go.Driver.Stmt.Reuse.{Current, ensure_prepared-Current}
use zeta_go.Driver.Rows.Queries.{Queried, query_all, query_all-Queried}
use zeta_go.Driver.Rows.Sessions.{nexts, names}
use zeta_go.Driver.Sessions.{SessionCall, calls_conn, execs, queries, use_session}
use zeta_go.Driver.Sessions.Whole.{session-restores}
use zeta_go.Tests.{engine, two_steps, two_columns}

-- A database, a transaction on it and a statement, 0, 1 and 2.
abbrev two_objects : Heap
two_objects q = if q == 0 then some database else if q == 1 then some transaction else none

abbrev three_objects : Obj → Heap
three_objects o = put two_objects 2 (some o)

abbrev in_tx : Conn
in_tx = record { handle = some 0; txn = some 1 }

-- Prepared outside the transaction.
abbrev plain : Stmt
plain = record { handle = some 2; query = 83 ∷ []; in_txn = false; is_closed = false }

abbrev world : Obj → World engine Conn
world o = record { engine = true; heap = three_objects o; next = 3; go = in_tx }

world-At : (o : Obj) → At (three_objects o) in_tx (world o)
world-At o = record { heap = λ q. refl; go = refl; fresh = λ q l. ground arith }

abbrev before : World engine Conn
before = world (statement none false)

plain-Holds : Holds two_objects in_tx none plain before
plain-Holds = holding 2 false (83 ∷ []) false before refl (world-At (statement none false))

ensure_prepared-Ensures_example :
    Returns
      (ensure_prepared plain before)
      (λ r. Ensures two_objects in_tx none (83 ∷ []) r.0.0 r.0.1 r.1)
ensure_prepared-Ensures_example =
    ensure_prepared-Ensures in_tx none plain before refl refl plain-Holds

ensure_prepared-Current_example :
    Returns (ensure_prepared plain before) (λ r. Current two_objects in_tx r.0.0 r.0.1 r.1)
ensure_prepared-Current_example =
    ensure_prepared-Current in_tx none plain before refl refl plain-Holds (inl refl)

-- A connection that is opened, used and closed.
abbrev alone : World engine Conn
alone = record { engine = true; heap = λ q. none; next = 0; go = nowhere }

alone-At : At (λ q. none) nowhere alone
alone-At = record { heap = λ q. refl; go = refl; fresh = λ q l. refl }

abbrev works_on : List (SessionCall engine)
works_on =
    execs false []
    ∷ calls_conn begins
    ∷ queries false [] (nexts 1 ∷ names ∷ [])
    ∷ calls_conn commits
    ∷ execs false []
    ∷ zeta_go.Driver.Sessions.closes
    ∷ calls_conn zeta_go.Driver.Conn.Sessions.closes
    ∷ execs true []
    ∷ []

session-restores_example :
    Returns
      ((open_conn (47 ∷ []) >>= use_session 2 [] false (83 ∷ []) works_on) alone)
      (λ r. At (λ q. none) nowhere r.1)
session-restores_example =
    session-restores 2 (47 ∷ []) (83 ∷ []) [] false works_on alone two_steps two_columns alone-At

open-Opens_example :
    Returns
      (open_path (47 ∷ 0 ∷ 46 ∷ []) alone)
      (λ r. Opens true (λ q. none) nowhere (at_path (47 ∷ [])) r.0 r.1)
    × Returns
        (open_mode (47 ∷ 0 ∷ 46 ∷ []) (pos 4294967297) alone)
        (λ r. Opens true (λ q. none) nowhere (at_path_mode (47 ∷ []) (pos 1)) r.0 r.1)
    × Returns (open_memory alone) (λ r. Opens true (λ q. none) nowhere in_memory r.0 r.1)
unfolding wrap
open-Opens_example = open-Opens (47 ∷ 0 ∷ 46 ∷ []) (pos 4294967297) alone alone-At

abbrev one_named : List (NamedValue engine)
one_named =
    record { name = []; value = DriverValue.plain Param.nil }
    ∷ record { name = 97 ∷ []; value = DriverValue.plain Param.nil }
    ∷ []

named_to_values-HasName_example :
    (All (λ (a : NamedValue engine). a.name ≡ []) one_named
      × (named_to_values one_named ≡ ok (map (λ (a : NamedValue engine). a.value) one_named)))
    ⊎ (HasName one_named × (named_to_values one_named ≡ err named_parameter))
named_to_values-HasName_example = named_to_values-HasName one_named

-- A statement that was prepared in the transaction of its connection, and is run in it.
stmt_exec-Reruns_example :
    Returns (exec 2 (on_handle 2 (83 ∷ []) true) [] (world (statement (some 1) false))) (λ r.
      (r.0.1 ≡ on_handle 2 (83 ∷ []) true)
      × Reruns engine 0 2 [] true r.0.0 r.1.engine
      × Moved two_objects in_tx 2 (some 1) r.1)
stmt_exec-Reruns_example =
    stmt_exec-Reruns two_objects 0 2 (some 1) (some 1) (83 ∷ []) true false refl [] 2
      (world (statement (some 1) false)) two_steps refl refl (world-At (statement (some 1) false))

query_all-Queried_example :
    Returns
      (query_all 2 (on_handle 2 (83 ∷ []) true) [] 3 (world (statement (some 1) false)))
      (λ r. Queried engine 2 3 [] true r.0 r.1.engine × Moved two_objects in_tx 2 (some 1) r.1)
query_all-Queried_example =
    query_all-Queried two_objects 0 2 (some 1) (some 1) (83 ∷ []) true false refl [] 1 3
      (world (statement (some 1) false)) two_steps (world-At (statement (some 1) false))
