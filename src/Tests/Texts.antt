-- ===== src/Tests/Texts.antt =====
-- Descriptions of tables and listeners at concrete inputs.
use zeta_go.Prelude.{◌≡◌, refl, true, false, some, [], ◌∷◌}
use zeta_go.Machine.Rules.{Returns}
use zeta_go.Machine.Heaps.{At}
use zeta_go.Errors.{codes}
use zeta_go.Schema.{
  TableInfo, ColumnInfo, newline, parse_table_info, table_names, list_tables, table_info,
}
use zeta_go.Schema.Text.{ended_by}
use zeta_go.Schema.Parse.{IsPlain, print_table, parse_table_info-print_table, table_names-ended_by}
use zeta_go.Schema.Lifecycle.{schema-restores}
use zeta_go.Devlisten.{start_pgwire_dev, start_mysqlwire_dev, stop_dev_listeners}
use zeta_go.Devlisten.Lifecycle.{devlisten-restores}
use zeta_go.Tests.{at_rest, at_rest-IsReady}

abbrev id_column : ColumnInfo
id_column = record {
  name = codes "id";
  sql_type = codes "INT";
  nullable = false;
  is_primary_key = true;
}

abbrev items : TableInfo
items = record { name = codes "items"; columns = id_column ∷ [] }

id_column-IsPlain : IsPlain id_column
id_column-IsPlain = record {
  name_tab = (refl, (refl, tt));
  name_line = (refl, (refl, tt));
  type_tab = (refl, (refl, (refl, tt)));
  type_line = (refl, (refl, (refl, tt)));
}

parse_table_info-print_table_example : parse_table_info (print_table items) ≡ some items
parse_table_info-print_table_example =
    parse_table_info-print_table items (refl, (refl, (refl, (refl, (refl, tt)))))
      (id_column-IsPlain, tt)

table_names-ended_by_example :
    table_names (ended_by newline (codes "a") (codes "b" ∷ [])) ≡ codes "a" ∷ codes "b" ∷ []
table_names-ended_by_example =
    table_names-ended_by (codes "a") (codes "b" ∷ []) ((refl, tt), ((refl, tt), tt))
      (refl, (refl, tt))

schema-restores_example :
    Returns (list_tables at_rest) (λ r. At at_rest.heap at_rest.go r.1)
    × Returns (table_info (codes "items") at_rest) (λ r. At at_rest.heap at_rest.go r.1)
schema-restores_example = schema-restores at_rest at_rest-IsReady (codes "items")

devlisten-restores_example :
    Returns (start_pgwire_dev (codes ":1") at_rest) (λ r. At at_rest.heap at_rest.go r.1)
    × Returns (start_mysqlwire_dev (codes ":1") at_rest) (λ r. At at_rest.heap at_rest.go r.1)
    × Returns (stop_dev_listeners at_rest) (λ r. At at_rest.heap at_rest.go r.1)
devlisten-restores_example = devlisten-restores at_rest at_rest-IsReady (codes ":1")
