-- ===== src/Tests/Sessions.antt =====
-- Statements, queries and transactions on the small engine.
use zeta_go.Prelude.{List, [], ◌∷◌}
use zeta_go.Prelude.Int.{pos}
use zeta_go.Machine.{◌>>=◌}
use zeta_go.Machine.Rules.{Returns}
use zeta_go.Machine.Heaps.{At}
use zeta_go.Rows.{query}
use zeta_go.Rows.Lifecycle.{use_rows, query-restores}
use zeta_go.Tx.{begin_with_isolation}
use zeta_go.Tx.Sessions.{TxCall, execs, queries, commits, rollbacks, use_tx, transaction-restores}
use zeta_go.Tests.{engine, at_rest, at_rest-IsReady, two_steps, two_columns, params, reads}

abbrev changes : List (TxCall engine)
changes = execs (83 ∷ []) params ∷ queries (84 ∷ []) params reads ∷ commits ∷ rollbacks ∷ []

query-restores_example :
    Returns
      ((query (83 ∷ []) params >>= use_rows reads) at_rest)
      (λ r. At at_rest.heap at_rest.go r.1)
query-restores_example = query-restores at_rest at_rest-IsReady two_columns (83 ∷ []) params reads

transaction-restores_example :
    Returns
      ((begin_with_isolation (pos 1) >>= use_tx 2 changes) at_rest)
      (λ r. At at_rest.heap at_rest.go r.1)
transaction-restores_example =
    transaction-restores at_rest at_rest-IsReady 2 two_steps two_columns (pos 1) changes
