-- ===== src/Driver/Rows/Fetches.antt =====
-- The rows of a query of database/sql against the steps of the engine: each row once, in order.
use zeta_go.Prelude.{
  ℕ, zero, suc, ◌+◌, ◌≡◌, refl, sym, Bool, true, false, some, List, [], ◌∷◌, ◌++◌,
}
use mathlib.Core.List.{append-nil, append_assoc}
use mathlib.Core.Path.{subst}
use zeta_go.Prelude.Int.{ℤ, eq_ℤ}
use zeta_go.Machine.{Bytes, Ptr, Platform, M, pure, ◌>>=◌, exhausted, Heap, statement, as_statement}
use zeta_go.Machine.Rules.{Returns-returns}
use zeta_go.Machine.Heaps.{the-chain}
use zeta_go.Machine.Known.{ask_known}
use zeta_go.Machine.Tells.{Tells, Tells-bind, Tells-map}
use zeta_go.Capi.{zeta_row, zeta_done, zeta_column_count}
use zeta_go.Errors.{GoError, eof, Result, ok, err}
use zeta_go.Params.{c_int}
use zeta_go.Params.Reference.{stmt_failure}
use zeta_go.Columns.{Value, column_to_any, column_type_at}
use zeta_go.Columns.Boxed.{boxed, column_read-Tells, column_to_any-boxed}
use zeta_go.Driver.Conn.{Conn}
use zeta_go.Driver.Stmt.{Stmt, RowState}
use zeta_go.Driver.Stmt.Executes.{on_handle}
use zeta_go.Driver.Rows.{rounds, column_to_value, values_from, read_row, next}

-- The values of the current row from column `i` on: `k` columns, `m` places.
abbrev pub cells : (e : Platform) → e.State → ℕ → ℕ → ℕ → ℕ → List (Value e)
cells e s p zero m i = []
cells e s p (suc k) zero i = []
cells e s p (suc k) (suc m) i =
    boxed e s p (c_int i) (e.column_type s p (c_int i)) ∷ cells e s p k m (i + 1)

-- What a `Next` with so many places takes of the current row.
abbrev pub row_of : (e : Platform) → e.State → ℕ → ℕ → List (Value e)
row_of e s p places = cells e s p (rounds (e.column_count s p)) places 0

-- The rows that the engine gives, and how they end: io.EOF once it is done, or the error.
pub data Fetches (e : Platform) (p places : ℕ)
    : e.State → List (List (Value e)) → GoError → e.State → Type 0 where
  finished :
      (s t : e.State)
      → eq_ℤ (e.step s p).0 zeta_row ≡ false
      → eq_ℤ (e.step s p).0 zeta_done ≡ true
      → t ≡ (e.step s p).1
      → Fetches e p places s [] eof t
  fails :
      (s t : e.State)
      → eq_ℤ (e.step s p).0 zeta_row ≡ false
      → eq_ℤ (e.step s p).0 zeta_done ≡ false
      → t ≡ (e.step s p).1
      → Fetches e p places s [] (stmt_failure e t p (e.step s p).0) t
  takes :
      (s u : e.State) (rows : List (List (Value e))) (x : GoError)
      → eq_ℤ (e.step s p).0 zeta_row ≡ true
      → Fetches e p places (e.step s p).1 rows x u
      → Fetches e p places s (row_of e (e.step s p).1 p places ∷ rows) x u

module _ {e : Platform} where
  -- `Next` until it answers an error, as database/sql does: the rows, and the error.
  unfoldable pub rest_of :
      Result (List (Value e)) × RowState
      → (RowState → M e Conn (List (List (Value e)) × GoError))
      → M e Conn (List (List (Value e)) × GoError)
  rest_of (err x, r) k = pure ([], x)
  rest_of (ok vs, r) k = do rest ← k r; pure (vs ∷ rest.0, rest.1)

  unfoldable pub fetch : ℕ → Stmt → ℕ → RowState → M e Conn (List (List (Value e)) × GoError)
  unfolding rest_of
  fetch zero s places r w = exhausted
  fetch (suc f) s places r w = (do b ← next s r places; rest_of b (fetch f s places)) w

  unfoldable pub fetch_first :
      ℕ → Stmt → ℕ → Result RowState → M e Conn (List (List (Value e)) × GoError)
  unfolding fetch
  fetch_first f s places (err x) = pure ([], x)
  fetch_first f s places (ok r) = fetch f s places r

module _ {e : Platform} {s : e.State} {h : Heap} {c : Conn} (p : ℕ) (owner : Ptr)
    (live : h p ≡ some (statement owner true)) where
  value-Tells :
      (i : ℤ)
      → Tells s h c (boxed e s p i (e.column_type s p i)) (column_to_value {e = e} (some p) i)
  unfolding column_to_value column_type_at
  value-Tells i =
      Tells-bind _ (λ t. column_to_any (some p) i t) _ _
        (column_read-Tells p owner live (λ s q. e.column_type s q i))
        (column_to_any-boxed p owner live i _)

  values-Tells :
      (k m i : ℕ) (out : List (Value e))
      → Tells s h c (out ++ cells e s p k m i) (values_from {e = e} (some p) k m i out)
  unfolding values_from
  values-Tells zero m i out = record { at = λ w j. Returns-returns _ (sym (append-nil out), j) }
  values-Tells (suc k) zero i out = record {
    at = λ w j. Returns-returns _ (sym (append-nil out), j);
  }
  values-Tells (suc k) (suc m) i out =
      let v = boxed e s p (c_int i) (e.column_type s p (c_int i)) in
      record {
        at =
            (Tells-bind _ (λ v. values_from (some p) k m (i + 1) (out ++ v ∷ [])) v _
              (value-Tells (c_int i))
              (subst (λ l. Tells s h c l (values_from (some p) k m (i + 1) (out ++ v ∷ [])))
                (append_assoc out (v ∷ []) (cells e s p k m (i + 1)))
                (values-Tells k m (i + 1) (out ++ v ∷ [])))).at;
      }

  count-Tells : Tells s h c (e.column_count s p) (zeta_column_count {e = e} {G = Conn} (some p))
  unfolding zeta_column_count
  count-Tells = record {
    at = λ w i.
        the-chain w i.at as_statement p (statement owner true) (owner, true) _ live refl
          (ask_known w i (λ t. (e.column_count t p, t)));
  }

  pub read_row-Tells :
      (sql : Bytes) (b : Bool) (r : RowState) (places : ℕ)
      → Tells s h c
          (ok (row_of e s p places), record r { pending = false })
          (read_row (on_handle p sql b) r places)
  unfolding read_row
  read_row-Tells sql b r places = Tells-bind _ _ (e.column_count s p) _ count-Tells (
      Tells-map _ (λ vs. (ok vs, record r { pending = false })) (row_of e s p places)
        (values-Tells (rounds (e.column_count s p)) places 0 []))
