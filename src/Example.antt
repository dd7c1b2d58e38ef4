-- ===== src/Example.antt =====
-- examples/embedded/main.go: a program that uses the direct API.
pub mod Loop
pub mod Whole
use zeta_go.Prelude.{
  ℕ, zero, suc, Bool, true, false, Option, none, some, List, [], ◌∷◌, ◌++◌, map, if◌then◌else◌,
}
use zeta_go.Prelude.Int.{ℤ, pos}
use zeta_go.Machine.{Bytes, Ptr, Platform, World, exhausted, M, pure, ◌>>=◌, ◌>>◌, set_go}
use zeta_go.Errors.{GoError, codes, Result, ok, err}
use zeta_go.Params.{go_int64, go_string, go_floats}
use zeta_go.Columns.{Dest, Stored, to_int64, to_string}
use zeta_go.Database.{Database, open_memory, close}
use zeta_go.Database.Contract.{idle}
use zeta_go.Rows.{Rows, next, scan, last_error}
use zeta_go.Tx.{Tx, begin, commit, rollback}
use zeta_go.Schema.{ColumnInfo, TableInfo, list_tables, table_info}

-- What the program prints: the engine's version, a heading, a row, the tables, and a column: its
-- name, its type, whether it can be NULL, and whether it is the primary key.
pub data Shown (e : Platform) : Type 0 where
  engine_version : Bytes → Shown e
  heading : Bytes → Shown e
  row : List (Stored e) → Shown e
  tables : List Bytes → Shown e
  column : Bytes → Bytes → Bytes → Bytes → Shown e

abbrev column_line : {e : Platform} → ColumnInfo → Shown e
column_line c =
    column c.name c.sql_type (if c.nullable then codes "NULL" else codes "NOT NULL")
      (if c.is_primary_key then codes " PK" else [])

-- What it has printed, and the error of `log.Fatal`, which ends the process without the deferred
-- calls.
abbrev pub Run : Platform → Type 0
Run e = List (Shown e) × Option GoError

abbrev pub create_users : Bytes
create_users =
    10 ∷ 9 ∷ 9 ∷ codes "CREATE TABLE users ("
    ++ 10 ∷ 9 ∷ 9 ∷ 9 ∷ codes "id BIGINT PRIMARY KEY,"
    ++ 10 ∷ 9 ∷ 9 ∷ 9 ∷ codes "name TEXT NOT NULL,"
    ++ 10 ∷ 9 ∷ 9 ∷ 9 ∷ codes "embedding VECTOR(3)"
    ++ 10 ∷ 9 ∷ 9 ∷ codes ")"
    ++ 10 ∷ 9 ∷ []

abbrev pub insert_user : Bytes
insert_user = codes "INSERT INTO users VALUES ($1, $2, $3)"

abbrev pub select_users : Bytes
select_users = codes "SELECT id, name, embedding FROM users ORDER BY id"

abbrev pub user_columns : List Dest
user_columns = to_int64 ∷ to_string ∷ to_string ∷ []

pub record User (e : Platform) : Type 0 where
  pub id : ℤ
  pub name : Bytes
  pub embedding : List e.Float

-- `one` is the float32 1.0
abbrev pub users : {e : Platform} → e.Float → List (User e)
users {e} one =
    record { id = pos 1; name = codes "alice"; embedding = one ∷ e.float_zero ∷ e.float_zero ∷ [] }
    ∷ record { id = pos 2; name = codes "bob"; embedding = e.float_zero ∷ one ∷ e.float_zero ∷ [] }
    ∷ record {
      id = pos 3;
      name = codes "carol";
      embedding = e.float_zero ∷ e.float_zero ∷ one ∷ [];
    }
    ∷ []

module _ {e : Platform} where
  -- `if err != nil { log.Fatal(err) }`
  abbrev pub must :
      {A : Type 0} → List (Shown e) → Result A → (A → M e Database (Run e)) → M e Database (Run e)
  must out (ok a) k = k a
  must out (err x) k = pure (out, some x)

  abbrev pub then_next :
      Result ℤ → M e Database (Result (Unit {0})) → M e Database (Result (Unit {0}))
  then_next (ok n) k = k
  then_next (err x) k = pure (err x)

  -- The loop of the inserts: the error that ends it, if any.
  unfoldable pub insert_users : ℕ → Tx → List (User e) → M e Database (Result (Unit {0}))
  insert_users f t [] w = pure (ok tt) w
  insert_users f t (u ∷ us) w =
      (do
        r ←
            zeta_go.Tx.exec f t insert_user
              (go_int64 u.id ∷ go_string u.name ∷ go_floats u.embedding ∷ [])
        then_next r (insert_users f t us))
        w

  abbrev pub scanned :
      List (Stored e) × Result (Unit {0})
      → Rows
      → List (Shown e)
      → (Rows → List (Shown e) → M e Database (Rows × Run e))
      → M e Database (Rows × Run e)
  scanned (vs, ok u) r out rest = rest r (out ++ row vs ∷ [])
  scanned (vs, err x) r out rest = pure (r, (out, some x))

  abbrev pub advanced :
      Bool
      → Rows
      → List (Shown e)
      → (Rows → List (Shown e) → M e Database (Rows × Run e))
      → M e Database (Rows × Run e)
  advanced false r out rest = pure (r, (out, none))
  advanced true r out rest = do s ← scan r user_columns; scanned s r out rest

  -- `for rows.Next() { … }`, with the iterator that it leaves.
  unfoldable pub show_rows : ℕ → Rows → List (Shown e) → M e Database (Rows × Run e)
  show_rows zero r out w = exhausted
  show_rows (suc f) r out w = (do n ← next r; advanced n.0 n.1 out (show_rows f)) w

  abbrev pub show_columns : Result (Option TableInfo) → List (Shown e)
  show_columns (ok (some t)) = heading (codes "users columns:") ∷ map column_line t.columns
  show_columns _ = []

  -- The end of `main`, and the deferred calls: `rows.Close`, `tx.Rollback`, `db.Close`.
  unfoldable pub finish : Rows → Tx → List (Shown e) → List Bytes → M e Database (Run e)
  finish r t out names = do
    i ← table_info (codes "users")
    zeta_go.Rows.close r
    rollback t
    close
    pure ((out ++ tables names ∷ []) ++ show_columns i, none)

  unfoldable pub describe : Rows → Tx → List (Shown e) → M e Database (Run e)
  unfolding finish
  describe r t out = do l ← list_tables; must out l (finish r t out)

  abbrev pub rows_ended :
      Option GoError → List (Shown e) → M e Database (Run e) → M e Database (Run e)
  rows_ended none out k = k
  rows_ended (some x) out k = pure (out, some x)

  -- After the loop over the rows.
  unfoldable pub after_rows : Tx → Rows × Run e → M e Database (Run e)
  unfolding describe
  after_rows t (r, (out, some x)) = pure (out, some x)
  after_rows t (r, (out, none)) = rows_ended (last_error r) out (describe r t out)

  unfoldable pub show_users : ℕ → List (Shown e) → Tx → Rows → M e Database (Run e)
  unfolding show_rows after_rows
  show_users f out t r = do s ← show_rows f r (out ++ heading (codes "rows:") ∷ []); after_rows t s

  unfoldable pub query_users : ℕ → List (Shown e) → Tx → M e Database (Run e)
  unfolding show_users
  query_users f out t = do q ← zeta_go.Rows.query select_users []; must out q (show_users f out t)

  unfoldable pub commit_users : ℕ → List (Shown e) → Tx → M e Database (Run e)
  unfolding query_users
  commit_users f out t = do c ← commit t; must out c.0 (λ _. query_users f out c.1)

  unfoldable pub with_tx : e.Float → ℕ → List (Shown e) → Tx → M e Database (Run e)
  unfolding insert_users commit_users
  with_tx one f out t = do i ← insert_users f t (users one); must out i (λ _. commit_users f out t)

  unfoldable pub begin_users : e.Float → ℕ → List (Shown e) → M e Database (Run e)
  unfolding with_tx
  begin_users one f out = do t ← begin; must out t (with_tx one f out)

  unfoldable pub with_database : e.Float → ℕ → List (Shown e) → Ptr → M e Database (Run e)
  unfolding begin_users
  with_database one f out p = do
    set_go (idle p)
    c ← zeta_go.Database.exec f create_users []
    must out c (λ _. begin_users one f out)

  -- `main`
  unfoldable pub main : e.Float → ℕ → M e Database (Run e)
  unfolding with_database
  main one f = do
    p ← open_memory
    must (engine_version e.version ∷ []) p (with_database one f (engine_version e.version ∷ []))
