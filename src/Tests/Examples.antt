-- ===== src/Tests/Examples.antt =====
-- The example program on an engine whose rows have three columns.
use zeta_go.Prelude.{refl, true, false, none, some, [], arith}
use zeta_go.Prelude.Int.{pos}
use zeta_go.Machine.{Platform, World, Heap, put, statement}
use zeta_go.Machine.Rules.{Returns}
use zeta_go.Machine.Heaps.{At}
use zeta_go.Database.{Database}
use zeta_go.Database.Contract.{Halts, held, idle}
use zeta_go.Example.{show_rows, main}
use zeta_go.Example.Loop.{Shows, show_rows-Shows}
use zeta_go.Example.Whole.{Leaves, main-Leaves}
use zeta_go.Tests.{engine, one_database}

abbrev wide : Platform
wide = record engine { column_count = λ s p. pos 3 }

wide_ends : Halts wide 2
wide_ends true p = refl
wide_ends false p = refl

abbrev nothing : Heap
nothing q = none

abbrev start : World wide Database
start = record { engine = false; heap = nothing; next = 1; go = idle none }

main-Leaves_example : Returns (main tt 2 start) (λ r. Leaves nothing r.0 r.1)
main-Leaves_example = main-Leaves tt 2 start wide_ends (λ q l. refl)

abbrev with_statement : Heap
with_statement = put one_database 1 (some (statement none false))

abbrev reading_users : World wide Database
reading_users = record { engine = true; heap = with_statement; next = 2; go = held (some 0) }

reading_users-At : At with_statement (held (some 0)) reading_users
reading_users-At = record { heap = λ q. refl; go = refl; fresh = λ q l. ground arith }

show_rows-Shows_example :
    Returns
      (show_rows 2
        (record { stmt = some 1; is_closed = false; last_err = none; at_row = false })
        []
        reading_users)
      (λ r. Shows one_database (some 0) 1 true [] r.0 r.1)
show_rows-Shows_example =
    show_rows-Shows (some 0) 1 none 2 false false [] reading_users refl refl reading_users-At
