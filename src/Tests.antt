-- ===== src/Tests.antt =====
-- A small engine, a database at rest on it, and the theorems at concrete inputs.
mod Sessions
mod Steps
mod Statements
mod Texts
mod Examples
mod Setups
mod Goroutines
mod Reads
use zeta_go.Prelude.{
  ℕ, ◌≡◌, ◌≤◌, refl, Bool, true, false, Option, none, some, List, [], ◌∷◌, arith, ◌==◌,
  if◌then◌else◌,
}
use zeta_go.Prelude.Int.{ℤ, pos, negsuc}
use zeta_go.Machine.{Bytes, Platform, created, fine, wrote, World, Heap, database}
use zeta_go.Capi.{zeta_row, zeta_done}
use zeta_go.Database.{Database}
use zeta_go.Database.Contract.{Halts, idle}
use zeta_go.Database.Exec.{IsReady}
use zeta_go.Params.{Param, go_string, go_uint}
use zeta_go.Columns.{to_int, to_any}
use zeta_go.Rows.Lifecycle.{Call, nexts, names, closes, scans, Counts}

abbrev answer : Bool → ℤ × Bool
answer true = (zeta_row, false)
answer false = (zeta_done, false)

-- Its state is whether the running statement has a row left; every call succeeds.
abbrev engine : Platform
engine = record {
  State = Bool;
  Float = Unit {0};
  Double = Unit {0};
  widen = λ x. x;
  narrow = λ x. x;
  float_zero = tt;
  double_zero = tt;
  version = [];
  open_db = λ s n c. (created, s);
  close = λ s d. s;
  errcode = λ s d. pos 0;
  errmsg = λ s d. [];
  changes = λ s d. pos 1;
  begin_isolation = λ s n d l. (created, s);
  commit = λ s t. (fine, s);
  rollback = λ s t. (pos 0, s);
  prepare = λ s n d q. (created, true);
  txn_prepare = λ s n t q. (created, true);
  bind = λ s p i v. (pos 0, s);
  step = λ s p. answer s;
  reset = λ s p. (pos 0, true);
  finalize = λ s p. s;
  stmt_errmsg = λ s p. none;
  column_count = λ s p. pos 2;
  column_name = λ s p i. some [];
  column_type = λ s p i. pos 1;
  column_int64 = λ s p i. negsuc 4;
  column_double = λ s p i. tt;
  column_text = λ s p i. none;
  column_blob = λ s p i. none;
  list_tables = λ s d. (wrote (97 ∷ 10 ∷ []), s);
  table_info = λ s d n. (wrote [], s);
  start_listener = λ s l d a. (fine, s);
  stop_listeners = λ s d. (negsuc 98, s);
}

-- Only the database 0 is live.
abbrev one_database : Heap
one_database q = if q == 0 then some database else none

abbrev at_rest : World engine Database
at_rest = record { engine = false; heap = one_database; next = 1; go = idle (some 0) }

one_database-fresh : (q : ℕ) → 1 ≤ q → one_database q ≡ none
one_database-fresh q l = ground arith

at_rest-IsReady : IsReady at_rest
at_rest-IsReady = record { unlocked = refl; opened = refl; fresh = one_database-fresh }

two_steps : Halts engine 2
two_steps true p = refl
two_steps false p = refl

two_columns : Counts engine
two_columns s p = (2, refl)

abbrev params : List (Param engine)
params = go_string (49 ∷ []) ∷ go_uint 7 ∷ []

abbrev reads : List Call
reads = scans [] ∷ nexts ∷ names ∷ scans (to_int ∷ to_any ∷ []) ∷ nexts ∷ closes ∷ nexts ∷ []
