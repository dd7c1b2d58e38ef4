-- ===== src/Driver/Rows.antt =====
-- embedded/driver.go: the rows of a statement.
pub mod Sessions
pub mod Fetches
pub mod Fetched
pub mod Whole
pub mod Queries
use zeta_go.Prelude.{
  ℕ, zero, suc, ◌+◌, true, false, ◌||◌, Option, none, some, List, [], ◌∷◌, ◌++◌, if◌then◌else◌,
}
use zeta_go.Prelude.Int.{ℤ, pos, negsuc, eq_ℤ}
use zeta_go.Machine.{Bytes, Ptr, Platform, M, pure, ◌>>=◌, ◌>>◌}
use zeta_go.Errors.{eof, Result, ok, err}
use zeta_go.Errors.Report.{stmt_error}
use zeta_go.Params.{c_int}
use zeta_go.Columns.{Value, column_to_any, column_type_at}
use zeta_go.Capi.{zeta_row, zeta_done, zeta_step, zeta_reset, zeta_column_count}
use zeta_go.Database.{is_nil}
use zeta_go.Rows.{all_names}
use zeta_go.Driver.Conn.{Conn}
use zeta_go.Driver.Stmt.{Stmt, RowState}

-- The rounds of a loop up to `n`: none if it is negative.
abbrev rounds : ℤ → ℕ
rounds (pos n) = n
rounds (negsuc n) = 0

module _ {e : Platform} where
  -- `(*rows).Columns`; `none` is the nil slice.
  unfoldable pub columns : Stmt → RowState → M e Conn (Option (List Bytes))
  columns s r =
      if r.is_closed || is_nil s.handle
      then pure none
      else (do n ← zeta_column_count s.handle; names ← all_names s.handle n; pure (some names))

  -- `(*rows).Close`
  unfoldable pub close : Stmt → RowState → M e Conn RowState
  close s r =
      if r.is_closed
      then pure r
      else if is_nil s.handle
      then pure (record { pending = false; done = true; is_closed = true })
      else (do
        zeta_reset s.handle
        pure (record { pending = false; done = true; is_closed = true }))

  -- `columnToValue`
  unfoldable pub column_to_value : Ptr → ℤ → M e Conn (Value e)
  column_to_value h i = do t ← column_type_at h i; column_to_any h i t

  -- `for i := 0; i < n && i < len(dest); i++`: `m` places are left in `dest`, `k` columns.
  unfoldable pub values_from : Ptr → ℕ → ℕ → ℕ → List (Value e) → M e Conn (List (Value e))
  values_from h zero m i out w = pure out w
  values_from h (suc k) zero i out w = pure out w
  values_from h (suc k) (suc m) i out w =
      (do v ← column_to_value h (c_int i); values_from h k m (i + 1) (out ++ v ∷ [])) w

  pub read_row : Stmt → RowState → ℕ → M e Conn (Result (List (Value e)) × RowState)
  read_row s r places = do
    n ← zeta_column_count s.handle
    vs ← values_from s.handle (rounds n) places 0 []
    pure (ok vs, record r { pending = false })

  -- The switch of `Next` on what the step returned.
  after_step : Stmt → RowState → ℕ → ℤ → M e Conn (Result (List (Value e)) × RowState)
  unfolding read_row
  after_step s r places rc =
      if eq_ℤ rc zeta_row
      then read_row s r places
      else if eq_ℤ rc zeta_done
      then pure (err eof, record r { done = true })
      else (do x ← stmt_error s.handle rc; pure (err x, record r { done = true }))

  -- `(*rows).Next` with `places` places in `dest`: the values that it stores there, from the first.
  unfoldable pub next : Stmt → RowState → ℕ → M e Conn (Result (List (Value e)) × RowState)
  unfolding after_step
  next s r places =
      if r.is_closed || is_nil s.handle
      then pure (err eof, r)
      else if r.pending
      then read_row s r places
      else if r.done
      then pure (err eof, r)
      else (do rc ← zeta_step s.handle; after_step s r places rc)
