-- ===== src/Rows.antt =====
-- embedded/query.go: `Query`, and the iterator that holds the mutex until it is closed.
pub mod Protocol
pub mod Reads
pub mod Lifecycle
pub mod Yields
pub mod Scanned
pub mod Fetches
pub mod Selects
use zeta_go.Prelude.{
  ℕ, zero, suc, Bool, true, false, not, ◌||◌, Option, none, some, List, [], ◌∷◌, ◌++◌, ◌+◌,
  if◌then◌else◌,
}
use zeta_go.Prelude.Lists.{length}
use zeta_go.Prelude.Int.{ℤ, pos, negsuc, eq_ℤ}
use zeta_go.Machine.{Bytes, Ptr, Platform, World, fatal, M, pure, ◌>>=◌, ◌>>◌, get_go}
use zeta_go.Errors.{GoError, closed, no_row, destinations, column, Result, ok, err}
use zeta_go.Errors.Report.{stmt_error}
use zeta_go.Params.{Param, bind_params, c_int}
use zeta_go.Columns.{Dest, Stored, scan_column, go_text}
use zeta_go.Capi.{
  zeta_row, zeta_done, zeta_step, zeta_finalize, zeta_column_count, zeta_column_name,
}
use zeta_go.Database.{Database, is_nil, lock, unlock, prepare_locked}

pub record Rows : Type 0 where
  pub stmt : Ptr
  pub is_closed : Bool
  pub last_err : Option GoError
  pub at_row : Bool

-- The literal `Rows{db: d, stmt: stmt}`
abbrev pub new_rows : Ptr → Rows
new_rows stmt = record { stmt = stmt; is_closed = false; last_err = none; at_row = false }

abbrev is_error : Option GoError → Bool
is_error none = false
is_error (some x) = true

-- `(*Rows).Err`
abbrev pub last_error : Rows → Option GoError
last_error r = r.last_err

module _ {e : Platform} where
  -- What `Query` does once the parameters are bound, or are not.
  unfoldable pub rows_of : Ptr → Result (Unit {0}) → M e Database (Result Rows)
  rows_of stmt (err x) = do zeta_finalize stmt; unlock; pure (err x)
  rows_of stmt (ok u) = pure (ok (new_rows stmt))

  -- The part of `Query` after the prepare, which `Tx.Query` has too.
  unfoldable pub start_rows : List (Param e) → Result Ptr → M e Database (Result Rows)
  unfolding rows_of
  start_rows params (err x) = do unlock; pure (err x)
  start_rows params (ok stmt) = do b ← bind_params stmt params; rows_of stmt b

  -- `(*Database).Query`
  unfoldable pub query : Bytes → List (Param e) → M e Database (Result Rows)
  unfolding start_rows
  query sql params = do
    lock
    d ← get_go
    if is_nil d.handle
        then (do unlock; pure (err closed))
        else (do r ← prepare_locked sql; start_rows params r)

  -- `(*Rows).Close`
  unfoldable pub close : Rows → M e Database Rows
  close r = if r.is_closed then pure r else (do
    zeta_finalize r.stmt
    unlock
    pure (record r { stmt = none; is_closed = true; at_row = false }))

  -- `r.Close(); return false`
  stop : Rows → M e Database (Bool × Rows)
  unfolding close
  stop r = do r' ← close r; pure (false, r')

  -- The switch of `Next` on what the step returned.
  after_next : Rows → ℤ → M e Database (Bool × Rows)
  unfolding stop
  after_next r rc =
      if eq_ℤ rc zeta_row
      then pure (true, record r { at_row = true })
      else if eq_ℤ rc zeta_done
      then stop (record r { at_row = false })
      else (do x ← stmt_error r.stmt rc; stop (record r { last_err = some x; at_row = false }))

  -- `(*Rows).Next`: whether there is a row, and the iterator.
  unfoldable pub next : Rows → M e Database (Bool × Rows)
  unfolding after_next
  next r =
      if r.is_closed || is_error r.last_err
      then pure (false, r)
      else (do rc ← zeta_step r.stmt; after_next r rc)

  -- The loop over the column names: `k` rounds from column `i`.
  unfoldable pub names_from : {G : Type 0} → Ptr → ℕ → ℕ → List Bytes → M e G (List Bytes)
  names_from stmt zero i out w = pure out w
  names_from stmt (suc k) i out w =
      (do
        name ← zeta_column_name stmt (c_int i)
        names_from stmt k (i + 1) (out ++ go_text name ∷ []))
        w

  -- `make([]string, n)` panics at a negative length.
  unfoldable pub all_names : {G : Type 0} → Ptr → ℤ → M e G (List Bytes)
  unfolding names_from
  all_names stmt (negsuc n) w = fatal
  all_names stmt (pos n) w = names_from stmt n 0 [] w

  -- `(*Rows).Columns`; `none` is the nil slice.
  unfoldable pub columns : Rows → M e Database (Option (List Bytes))
  unfolding all_names
  columns r =
      if r.is_closed || not r.at_row
      then pure none
      else (do n ← zeta_column_count r.stmt; names ← all_names r.stmt n; pure (some names))

  -- The end of a round of `Scan` for column `i`: go on with `rest`, or stop with an error.
  after_scan :
      ℕ
      → List (Stored e)
      → Result (Stored e)
      → (List (Stored e) → M e Database (List (Stored e) × Result (Unit {0})))
      → M e Database (List (Stored e) × Result (Unit {0}))
  after_scan i out (ok v) rest = rest (out ++ v ∷ [])
  after_scan i out (err x) rest = pure (out, err (column i x))

  -- The loop of `Scan`, from column `i`: what is stored, in order, and the error that ended it.
  unfoldable pub scan_from :
      Ptr → ℕ → List Dest → List (Stored e) → M e Database (List (Stored e) × Result (Unit {0}))
  unfolding after_scan
  scan_from stmt i [] out w = pure (out, ok tt) w
  scan_from stmt i (d ∷ ds) out w =
      (do r ← scan_column stmt (c_int i) d; after_scan i out r (scan_from stmt (i + 1) ds)) w

  -- `Scan` at a row: the destinations are counted before any is written.
  scan_row : Ptr → List Dest → M e Database (List (Stored e) × Result (Unit {0}))
  unfolding scan_from
  scan_row stmt dest = do
    n ← zeta_column_count stmt
    if not (eq_ℤ (pos (length dest)) n)
        then pure ([], err (destinations n (length dest)))
        else scan_from stmt 0 dest []

  -- `(*Rows).Scan`
  unfoldable pub scan : Rows → List Dest → M e Database (List (Stored e) × Result (Unit {0}))
  unfolding scan_row
  scan r dest =
      if r.is_closed
      then pure ([], err no_row)
      else if not r.at_row
      then pure ([], err no_row)
      else scan_row r.stmt dest
