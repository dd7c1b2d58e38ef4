-- ===== src/Columns/Copied.antt =====
-- `scanColumn` against a reference: what a destination takes of a column in a state of the engine.
use zeta_go.Prelude.{◌≡◌, Bool, not, Option, some, if◌then◌else◌, ℕ, []}
use zeta_go.Prelude.Int.{ℤ, pos, eq_ℤ, wrap}
use zeta_go.Machine.{Platform, Heap, statement}
use zeta_go.Machine.Tells.{Tells, Tells-pure, Tells-if, Tells-bind, Tells-map}
use zeta_go.Errors.{unsupported_destination, Result, ok, err}
use zeta_go.Columns.{
  Dest, to_bool, to_int, to_int32, to_int64, to_float32, to_float64, to_string, to_time, to_bytes,
  to_any, to_other, Stored, a_bool, an_int, an_int32, an_int64, a_float32, a_float64, a_string,
  a_time, a_slice, an_any, zero_time, type_null, go_text, is_zero, non_empty, as_time, double_at,
  blob_at, column_type_at, scan_int, scan_typed, scan_column,
}
use zeta_go.Columns.Boxed.{
  boxed, column_read-Tells, read-Tells, int-Tells, text-Tells, column_to_any-boxed,
}

-- What the destination `d` takes of column `i` of the row of `p`, read by the type code `c`.
abbrev copied : (e : Platform) → e.State → ℕ → ℤ → ℤ → Dest → Result (Stored e)
copied e s p i c to_bool =
    if eq_ℤ c type_null
    then ok (a_bool Bool.false)
    else ok (a_bool (not (is_zero (e.column_int64 s p i))))
copied e s p i c to_int =
    if eq_ℤ c type_null then ok (an_int (pos 0)) else ok (an_int (e.column_int64 s p i))
copied e s p i c to_int32 =
    if eq_ℤ c type_null
    then ok (an_int32 (wrap 32 (pos 0)))
    else ok (an_int32 (wrap 32 (e.column_int64 s p i)))
copied e s p i c to_int64 =
    if eq_ℤ c type_null then ok (an_int64 (pos 0)) else ok (an_int64 (e.column_int64 s p i))
copied e s p i c to_float32 =
    if eq_ℤ c type_null
    then ok (a_float32 e.float_zero)
    else ok (a_float32 (e.narrow (e.column_double s p i)))
copied e s p i c to_float64 =
    if eq_ℤ c type_null
    then ok (a_float64 e.double_zero)
    else ok (a_float64 (e.column_double s p i))
copied e s p i c to_string =
    if eq_ℤ c type_null then ok (a_string []) else ok (a_string (go_text (e.column_text s p i)))
copied e s p i c to_time =
    if eq_ℤ c type_null then ok (a_time zero_time) else as_time c (boxed e s p i c)
copied e s p i c to_bytes =
    if eq_ℤ c type_null
    then ok (a_slice Option.none)
    else ok (a_slice (non_empty (e.column_blob s p i)))
copied e s p i c to_any = ok (an_any (boxed e s p i c))
copied e s p i c (to_other t) = err (unsupported_destination t)

-- The same by the type of the value in the column.
abbrev pub taken : (e : Platform) → e.State → ℕ → ℤ → Dest → Result (Stored e)
taken e s p i d = copied e s p i (e.column_type s p i) d

module _ {e : Platform} {G : Type 0} {s : e.State} {h : Heap} {g : G} (p : ℕ) (owner : Option ℕ)
    (live : h p ≡ some (statement owner Bool.true)) (i : ℤ) where
  scan_typed-copied :
      (c : ℤ) (d : Dest)
      → Tells s h g
          (copied e s p i c d)
          (scan_typed {e = e} {G = G} (some p) i c (eq_ℤ c type_null) d)
  unfolding scan_typed scan_int double_at blob_at
  scan_typed-copied c to_bool =
      Tells-if (eq_ℤ c type_null) _ _ _ _ (Tells-pure _)
        (int-Tells p owner live i (λ n. ok (a_bool (not (is_zero n)))))
  scan_typed-copied c to_int =
      Tells-if (eq_ℤ c type_null) _ _ _ _ (Tells-pure _)
        (int-Tells p owner live i (λ n. ok (an_int n)))
  scan_typed-copied c to_int32 =
      Tells-if (eq_ℤ c type_null) _ _ _ _ (Tells-pure _)
        (int-Tells p owner live i (λ n. ok (an_int32 (wrap 32 n))))
  scan_typed-copied c to_int64 =
      Tells-if (eq_ℤ c type_null) _ _ _ _ (Tells-pure _)
        (int-Tells p owner live i (λ n. ok (an_int64 n)))
  scan_typed-copied c to_float32 =
      Tells-if (eq_ℤ c type_null) _ _ _ _ (Tells-pure _)
        (read-Tells p owner live (λ s p. e.column_double s p i) (λ x. ok (a_float32 (e.narrow x))))
  scan_typed-copied c to_float64 =
      Tells-if (eq_ℤ c type_null) _ _ _ _ (Tells-pure _)
        (read-Tells p owner live (λ s p. e.column_double s p i) (λ x. ok (a_float64 x)))
  scan_typed-copied c to_string =
      Tells-if (eq_ℤ c type_null) _ _ _ _ (Tells-pure _)
        (text-Tells p owner live i (λ t. ok (a_string (go_text t))))
  scan_typed-copied c to_time =
      Tells-if (eq_ℤ c type_null) _ _ _ _ (Tells-pure _)
        (Tells-map _ (λ v. as_time c v) _ (column_to_any-boxed p owner live i c))
  scan_typed-copied c to_bytes =
      Tells-if (eq_ℤ c type_null) _ _ _ _ (Tells-pure _)
        (read-Tells p owner live (λ s p. e.column_blob s p i) (λ b. ok (a_slice (non_empty b))))
  scan_typed-copied c to_any =
      Tells-map _ (λ v. ok (an_any v)) _ (column_to_any-boxed p owner live i c)
  scan_typed-copied c (to_other t) = Tells-pure _

  pub scan_column-taken :
      (d : Dest) → Tells s h g (taken e s p i d) (scan_column {e = e} {G = G} (some p) i d)
  unfolding scan_column column_type_at
  scan_column-taken d =
      Tells-bind _ (λ c. scan_typed (some p) i c (eq_ℤ c type_null) d) _ _
        (column_read-Tells p owner live (λ s q. e.column_type s q i))
        (scan_typed-copied (e.column_type s p i) d)
