-- ===== src/Tests/Reads.antt =====
-- A row of two timestamps, read on an engine like the small one.
use zeta_go.Prelude.{◌≡◌, refl, true, false, inl, inr, none, some, [], ◌∷◌, arith}
use zeta_go.Prelude.Int.{pos, negsuc}
use zeta_go.Machine.{Platform, Heap, World, put, statement}
use zeta_go.Machine.Rules.{Returns}
use zeta_go.Machine.Heaps.{At}
use zeta_go.Columns.{to_time, to_int, scan_column}
use zeta_go.Columns.Temporal.{Times, scan_column-to_time}
use zeta_go.Database.{Database}
use zeta_go.Database.Contract.{held}
use zeta_go.Rows.{Rows, scan}
use zeta_go.Rows.Protocol.{Iterates, reading}
use zeta_go.Rows.Scanned.{read_by, scan-Agrees}
use zeta_go.Tests.{engine, one_database}

-- Its columns are of type TIMESTAMP, and hold 4 microseconds before 1970.
abbrev dated : Platform
dated = record engine { column_type = λ s p i. pos 10 }

abbrev a_row : Heap
a_row = put one_database 1 (some (statement none true))

abbrev on_a_row : World dated Database
on_a_row = record { engine = true; heap = a_row; next = 2; go = held (some 0) }

on_a_row-At : At a_row (held (some 0)) on_a_row
on_a_row-At = record { heap = λ q. refl; go = refl; fresh = λ q l. ground arith }

abbrev cursor : Rows
cursor = record { stmt = some 1; is_closed = false; last_err = none; at_row = true }

on_a_row-Iterates : Iterates one_database (some 0) cursor on_a_row
on_a_row-Iterates = reading 1 none true true on_a_row refl (λ _. refl) on_a_row-At

scan_column-to_time_example :
    Returns
      (scan_column (some 1) (pos 0) to_time on_a_row)
      (λ r. Times dated (pos 10) (negsuc 4) r.0)
scan_column-to_time_example =
    scan_column-to_time 1 none (pos 0) on_a_row refl on_a_row-At
      (inr (inl (inl (inl refl, ground arith))))

scan-Agrees_example : Returns (scan cursor (to_time ∷ to_int ∷ []) on_a_row) (λ r.
    (r.0 ≡ read_by dated true cursor (to_time ∷ to_int ∷ []))
    × (r.1.engine ≡ true)
    × Iterates one_database (some 0) cursor r.1)
scan-Agrees_example = scan-Agrees (some 0) cursor (to_time ∷ to_int ∷ []) on_a_row on_a_row-Iterates
