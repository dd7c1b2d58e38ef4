-- ===== src/Columns/Boxed.antt =====
-- `columnToAny` against a reference: the value of a column in a state of the engine.
use zeta_go.Prelude.{ℕ, ◌≡◌, refl, true, not, ◌||◌, Option, some, if◌then◌else◌}
use zeta_go.Prelude.Int.{ℤ, eq_ℤ, wrap, scale}
use zeta_go.Machine.{Bytes, Platform, Heap, pure, ◌>>=◌, statement, as_row}
use zeta_go.Machine.Heaps.{the-chain}
use zeta_go.Machine.Known.{ask_known}
use zeta_go.Machine.Tells.{Tells, Tells-pure, Tells-if, Tells-map}
use zeta_go.Capi.{column_read}
use zeta_go.Columns.{
  Value, nil, int64, float64, string, bool, time, type_null, type_int, type_float, type_text,
  type_blob, type_bool, type_timestamp, type_timestamptz, type_date, type_time, go_text,
  blob_or_nil, text_or_nil, is_zero, unix, unix_micro, time_of_day, int64_at, double_at, text_at,
  blob_at, column_to_any,
}

-- The value of column `i` of the row of `p`, read by the type code `c`.
abbrev pub boxed : (e : Platform) → e.State → ℕ → ℤ → ℤ → Value e
boxed e s p i c =
    if eq_ℤ c type_null
    then nil
    else if eq_ℤ c type_int
    then int64 (e.column_int64 s p i)
    else if eq_ℤ c type_float
    then float64 (e.column_double s p i)
    else if eq_ℤ c type_text
    then string (go_text (e.column_text s p i))
    else if eq_ℤ c type_blob
    then blob_or_nil (e.column_blob s p i)
    else if eq_ℤ c type_bool
    then bool (not (is_zero (e.column_int64 s p i)))
    else if eq_ℤ c type_timestamp || eq_ℤ c type_timestamptz
    then time (unix_micro (e.column_int64 s p i))
    else if eq_ℤ c type_date
    then time (unix (wrap 64 (scale 86400 (e.column_int64 s p i))))
    else if eq_ℤ c type_time
    then time (time_of_day (e.column_int64 s p i))
    else text_or_nil (e.column_text s p i)

module _ {e : Platform} {G : Type 0} {s : e.State} {h : Heap} {g : G} (p : ℕ) (owner : Option ℕ)
    (live : h p ≡ some (statement owner true)) where
  pub column_read-Tells :
      {A : Type 0} (f : e.State → ℕ → A)
      → Tells s h g (f s p) (column_read {e = e} {G = G} f (some p))
  unfolding column_read
  column_read-Tells f = record {
    at = λ w i.
        the-chain w i.at as_row p (statement owner true) tt _ live refl
          (ask_known w i (λ t. (f t p, t)));
  }

  pub read-Tells :
      {A B : Type 0} (f : e.State → ℕ → A) (k : A → B)
      → Tells s h g (k (f s p)) (column_read {e = e} {G = G} f (some p) >>= λ x. pure (k x))
  read-Tells f k = Tells-map _ k _ (column_read-Tells f)

  pub int-Tells :
      {B : Type 0} (i : ℤ) (k : ℤ → B)
      → Tells s h g
          (k (e.column_int64 s p i))
          (int64_at {e = e} {G = G} (some p) i >>= λ x. pure (k x))
  unfolding int64_at
  int-Tells i k = read-Tells (λ s p. e.column_int64 s p i) k

  pub text-Tells :
      {B : Type 0} (i : ℤ) (k : Option Bytes → B)
      → Tells s h g
          (k (e.column_text s p i))
          (text_at {e = e} {G = G} (some p) i >>= λ x. pure (k x))
  unfolding text_at
  text-Tells i k = read-Tells (λ s p. e.column_text s p i) k

  pub column_to_any-boxed :
      (i c : ℤ) → Tells s h g (boxed e s p i c) (column_to_any {e = e} {G = G} (some p) i c)
  unfolding column_to_any double_at blob_at
  column_to_any-boxed i c = Tells-if (eq_ℤ c type_null) _ _ _ _ (Tells-pure nil) (
      Tells-if (eq_ℤ c type_int) _ _ _ _ (int-Tells i (λ n. int64 n)) (
        Tells-if (eq_ℤ c type_float) _ _ _ _
          (read-Tells (λ s p. e.column_double s p i) (λ x. float64 x))
          (Tells-if (eq_ℤ c type_text) _ _ _ _ (text-Tells i (λ t. string (go_text t))) (
            Tells-if (eq_ℤ c type_blob) _ _ _ _
              (read-Tells (λ s p. e.column_blob s p i) (λ b. blob_or_nil b))
              (Tells-if (eq_ℤ c type_bool) _ _ _ _ (int-Tells i (λ n. bool (not (is_zero n)))) (
                Tells-if (eq_ℤ c type_timestamp || eq_ℤ c type_timestamptz) _ _ _ _
                  (int-Tells i (λ n. time (unix_micro n)))
                  (Tells-if (eq_ℤ c type_date) _ _ _ _
                    (int-Tells i (λ n. time (unix (wrap 64 (scale 86400 n)))))
                    (Tells-if (eq_ℤ c type_time) _ _ _ _ (int-Tells i (λ n. time (time_of_day n)))
                      (text-Tells i (λ t. text_or_nil t))))))))))
