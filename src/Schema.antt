-- ===== src/Schema.antt =====
-- embedded/schema.go: the tables of a database, and the text that the engine describes one with.
pub mod Text
pub mod Parse
pub mod Lifecycle
use zeta_go.Prelude.{
  ℕ, zero, suc, ◌+◌, ◌==◌, leb, Bool, true, false, ◌&&◌, not, Option, none, some, List, [], ◌∷◌,
  ◌++◌, if◌then◌else◌,
}
use zeta_go.Prelude.Int.{ℤ, eq_ℤ}
use zeta_go.Machine.{Bytes, Ptr, Platform, M, pure, ◌>>=◌, ◌>>◌, deferring, get_go}
use zeta_go.Errors.{closed, Result, ok, err, error_kind_from_code}
use zeta_go.Errors.Report.{consume_err_msg}
use zeta_go.Capi.{
  zeta_ok, c_string_of, free, go_string, zeta_free, zeta_list_tables, zeta_table_info,
}
use zeta_go.Database.{Database, is_nil, lock, unlock}

pub record ColumnInfo : Type 0 where
  pub name : Bytes
  pub sql_type : Bytes
  pub nullable : Bool
  pub is_primary_key : Bool

pub record TableInfo : Type 0 where
  pub name : Bytes
  pub columns : List ColumnInfo

-- '\n', '\t' and '1'
abbrev pub newline : ℕ
newline = 10

abbrev pub tab : ℕ
tab = 9

abbrev pub one : ℕ
one = 49

abbrev pub is_empty : {A : Type 0} → List A → Bool
is_empty [] = true
is_empty (x ∷ xs) = false

abbrev pub cons_first : ℕ → List Bytes → List Bytes
cons_first x [] = (x ∷ []) ∷ []
cons_first x (l ∷ ls) = (x ∷ l) ∷ ls

-- `strings.Split` at a separator of one byte
unfoldable pub split : ℕ → Bytes → List Bytes
split c [] = [] ∷ []
split c (x ∷ s) = let rest = split c s in if x == c then [] ∷ rest else cons_first x rest

-- `strings.TrimRight` with a cutset of one byte
unfoldable pub trim_right : ℕ → Bytes → Bytes
trim_right c [] = []
trim_right c (x ∷ s) = let rest = trim_right c s in if is_empty rest && x == c then [] else x ∷ rest

-- `part == "1"`
abbrev pub is_one : Bytes → Bool
is_one (c ∷ []) = c == one
is_one _ = false

-- The fields of a line, if there are four.
abbrev pub column_of : List Bytes → Option ColumnInfo
column_of (n ∷ t ∷ u ∷ k ∷ rest) =
    some (record { name = n; sql_type = t; nullable = is_one u; is_primary_key = is_one k })
column_of _ = none

abbrev pub cons_some : Option ColumnInfo → List ColumnInfo → List ColumnInfo
cons_some none cs = cs
cons_some (some c) cs = c ∷ cs

-- The loop of `parseTableInfo` over the lines after the first.
unfoldable pub columns_of : List Bytes → List ColumnInfo
unfolding split
columns_of [] = []
columns_of (line ∷ lines) =
    let rest = columns_of lines in
    if is_empty line then rest else cons_some (column_of (split tab line)) rest

abbrev table_of : List Bytes → Option TableInfo
table_of [] = none
table_of (l ∷ ls) = some (record { name = l; columns = columns_of ls })

-- `parseTableInfo`
unfoldable pub parse_table_info : Bytes → Option TableInfo
unfolding split trim_right
parse_table_info s = table_of (split newline (trim_right newline s))

-- The names in the engine's answer, one in a line.
unfoldable pub table_names : Bytes → List Bytes
unfolding split trim_right
table_names s = let t = trim_right newline s in if is_empty t then [] else split newline t

-- What `TableInfo` makes of the engine's answer: nil for the empty text.
unfoldable pub described : Bytes → Option TableInfo
unfolding parse_table_info
described s = if is_empty s then none else parse_table_info s

module _ {e : Platform} where
  -- The text is copied and freed, or the error is reported.
  unfoldable pub answered : {A : Type 0} → (Bytes → A) → ℤ × Ptr × Ptr → M e Database (Result A)
  answered f (rc, out, msg) =
      if not (eq_ℤ rc zeta_ok)
      then (do x ← consume_err_msg msg (error_kind_from_code rc); pure (err x))
      else (do s ← go_string out; zeta_free out; pure (ok (f s)))

  -- `(*Database).ListTables`
  unfoldable pub list_tables : M e Database (Result (List Bytes))
  unfolding answered
  list_tables = do
    lock
    deferring unlock (do
      d ← get_go
      if is_nil d.handle
          then pure (err closed)
          else (do r ← zeta_list_tables d.handle; answered table_names r))

  -- `(*Database).TableInfo`
  unfoldable pub table_info : Bytes → M e Database (Result (Option TableInfo))
  unfolding answered
  table_info name = do
    lock
    deferring unlock (do
      d ← get_go
      if is_nil d.handle then pure (err closed) else (do
        cs ← c_string_of
        deferring (free cs) (do r ← zeta_table_info d.handle name; answered described r)))
