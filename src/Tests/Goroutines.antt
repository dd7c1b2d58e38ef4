-- ===== src/Tests/Goroutines.antt =====
-- Goroutines that share the database of the small engine.
use zeta_go.Prelude.{ℕ, ◌≡◌, refl, Bool, arith, true, false, none, some, List, [], ◌∷◌}
use zeta_go.Prelude.Int.{pos}
use zeta_go.Machine.{World, Outcome, returns, blocks}
use zeta_go.Database.{Database}
use zeta_go.Rows.{Rows}
use zeta_go.Rows.Lifecycle.{nexts}
use zeta_go.Sharing.{
  Worker, Workers, Turn, queries, tx_executes, reads, begins, turn, Reach, start, later, is_close,
  WithoutTx,
}
use zeta_go.Sharing.Waits.{Turns}
use zeta_go.Sharing.Safety.{reached-Turns, one_open_iterator}
use zeta_go.Tests.{engine, one_database, at_rest, at_rest-IsReady, two_steps, two_columns, params}

record Run (tidy : Bool) : Type 0 where
  workers : Workers
  world : World engine Database
  reach : Reach tidy 2 at_rest workers world

-- A call that waits is left out, and so is a Close.
take :
    {tidy : Bool} (r : Run tidy) (i : ℕ) (t : Turn engine) (c : Bool)
    (o : Outcome (Worker × World engine Database))
    → is_close t ≡ c
    → turn 2 t (r.workers i) r.world ≡ o
    → Run tidy
take r i t false (returns (k, u)) n q = record {
  workers = _;
  world = _;
  reach = later r.reach i t k u (λ x y. cc (n, y)) q;
}
take r i t _ _ n q = r

run : {tidy : Bool} → Run tidy → List (ℕ × Turn engine) → Run tidy
unfolding take
run r [] = r
run r ((i, t) ∷ ts) = run (take r i t (is_close t) (turn 2 t (r.workers i) r.world) refl refl) ts

-- Goroutine 1 begins a transaction, and goroutine 0 reads the first row of a query.
abbrev reading : (tidy : Bool) → Run tidy
reading tidy =
    run (record { workers = _; world = _; reach = start })
      ((1, begins (pos 1)) ∷ (0, queries (83 ∷ []) params) ∷ (0, reads nexts) ∷ [])

abbrev cursor : Rows
cursor = record { stmt = some 3; is_closed = false; last_err = none; at_row = true }

-- An `Exec` in the transaction waits for the cursor of the other goroutine.
abbrev insertion : Turn engine
insertion = tx_executes (84 ∷ []) params

insertion_waits :
    (((reading false).workers 0).rows ≡ some cursor)
    × (turn 2 insertion ((reading false).workers 1) (reading false).world ≡ blocks)
unfolding run turn zeta_go.Sharing.on_rows zeta_go.Rows.Lifecycle.call zeta_go.Rows.query
    zeta_go.Rows.next zeta_go.Rows.start_rows zeta_go.Rows.rows_of zeta_go.Database.lock
    zeta_go.Tx.begin_with_isolation zeta_go.Machine.set_go zeta_go.Machine.get_go
    zeta_go.Capi.zeta_begin_isolation zeta_go.Machine.the zeta_go.Capi.make zeta_go.Machine.ask
    zeta_go.Machine.alloc zeta_go.Machine.store zeta_go.Database.unlock
    zeta_go.Database.prepare_locked zeta_go.Database.prepared zeta_go.Capi.c_string_of
    zeta_go.Capi.zeta_prepare zeta_go.Capi.free zeta_go.Capi.zeta_step zeta_go.Params.bind_params
    zeta_go.Params.bind_one zeta_go.Capi.zeta_bind zeta_go.Tx.exec
insertion_waits = (refl, refl)

no_transaction : WithoutTx one_database
no_transaction q lp = ground (arith, lp)

reached-Turns_example :
    Turns true
      (reading true).workers
      1
      (turn 2 insertion ((reading true).workers 1) (reading true).world)
reached-Turns_example =
    reached-Turns at_rest at_rest-IsReady 2 two_steps two_columns (reading true).workers
      (reading true).world 1 insertion no_transaction (reading true).reach (λ x y. cc)

one_open_iterator_example : (◌≡◌ {A = ℕ} 0 0) × ((reading false).world.go.locked ≡ true)
one_open_iterator_example =
    one_open_iterator at_rest at_rest-IsReady 2 two_steps two_columns (reading false).workers
      (reading false).world 0 0 cursor cursor (reading false).reach insertion_waits.0 refl
      insertion_waits.0 refl
