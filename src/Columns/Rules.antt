-- ===== src/Columns/Rules.antt =====
-- Reading a column of a row that is there returns, whatever its type and the destination, and
-- changes no C object.
use zeta_go.Prelude.{ℕ, ◌≡◌, refl, Bool, true, not, Option, some}
use zeta_go.Prelude.Int.{ℤ, eq_ℤ, wrap, scale}
use zeta_go.Machine.{Platform, Heap, pure, ◌>>=◌, as_row, statement, Bytes}
use zeta_go.Machine.Rules.{Returns-mono}
use zeta_go.Machine.Heaps.{Keeps, the-chain, ask_answer}
use zeta_go.Machine.Stays.{Stays, Stays-Keeps, Stays-pure, Stays-if, Stays-bind, Stays-map}
use zeta_go.Errors.{ok}
use zeta_go.Capi.{column_read}
use zeta_go.Columns.{
  int64, float64, string, bool, time, go_text, blob_or_nil, text_or_nil, is_zero, unix_micro, unix,
  time_of_day, int64_at, double_at, text_at, blob_at, a_bool, an_int, an_int32, an_int64, a_float32,
  a_float64, a_string, a_slice, an_any, as_time, non_empty, type_null, Dest, to_bool, to_int,
  to_int32, to_int64, to_float32, to_float64, to_string, to_time, to_bytes, to_any, to_other,
  Stored, column_to_any, scan_int, scan_typed, scan_column, column_type_at,
}

module _ {e : Platform} {G : Type 0} {h : Heap} {g : G} (p : ℕ) (owner : Option ℕ)
    (live : h p ≡ some (statement owner true)) where
  pub column_read-Stays :
      {A : Type 0} (f : e.State → ℕ → A) → Stays h g (column_read {e = e} {G = G} f (some p))
  unfolding column_read
  column_read-Stays f = record {
    at = λ w a.
        the-chain w a as_row p (statement owner true) tt _ live refl
          (Returns-mono _ (λ r b. (b.1, b.2)) (ask_answer w a _));
  }

  int64-Stays :
      {B : Type 0} (i : ℤ) (k : ℤ → B)
      → Stays h g (int64_at {e = e} {G = G} (some p) i >>= λ n. pure (k n))
  unfolding int64_at
  int64-Stays i k = Stays-map _ k (column_read-Stays _)

  double-Stays :
      {B : Type 0} (i : ℤ) (k : e.Double → B)
      → Stays h g (double_at {e = e} {G = G} (some p) i >>= λ n. pure (k n))
  unfolding double_at
  double-Stays i k = Stays-map _ k (column_read-Stays _)

  text-Stays :
      {B : Type 0} (i : ℤ) (k : Option Bytes → B)
      → Stays h g (text_at {e = e} {G = G} (some p) i >>= λ n. pure (k n))
  unfolding text_at
  text-Stays i k = Stays-map _ k (column_read-Stays _)

  blob-Stays :
      {B : Type 0} (i : ℤ) (k : Option Bytes → B)
      → Stays h g (blob_at {e = e} {G = G} (some p) i >>= λ n. pure (k n))
  unfolding blob_at
  blob-Stays i k = Stays-map _ k (column_read-Stays _)

  pub column_to_any-Stays :
      (i ctype : ℤ) → Stays h g (column_to_any {e = e} {G = G} (some p) i ctype)
  unfolding column_to_any
  column_to_any-Stays i ctype = Stays-if _ _ _ (Stays-pure _) (
      Stays-if _ _ _ (int64-Stays i (λ n. int64 n)) (
        Stays-if _ _ _ (double-Stays i (λ x. float64 x)) (
          Stays-if _ _ _ (text-Stays i (λ t. string (go_text t))) (
            Stays-if _ _ _ (blob-Stays i (λ b. blob_or_nil b)) (
              Stays-if _ _ _ (int64-Stays i (λ n. bool (not (is_zero n)))) (
                Stays-if _ _ _ (int64-Stays i (λ n. time (unix_micro n))) (
                  Stays-if _ _ _ (int64-Stays i (λ n. time (unix (wrap 64 (scale 86400 n))))) (
                    Stays-if _ _ _ (int64-Stays i (λ n. time (time_of_day n)))
                      (text-Stays i (λ t. text_or_nil t))))))))))

  scan_int-Stays :
      (f : ℤ → Stored e) (n : Bool) (i : ℤ) → Stays h g (scan_int {e = e} {G = G} f n (some p) i)
  unfolding scan_int
  scan_int-Stays f n i = Stays-if n _ _ (Stays-pure _) (int64-Stays i (λ x. ok (f x)))

  scan_typed-Stays :
      (i ctype : ℤ) (n : Bool) (d : Dest)
      → Stays h g (scan_typed {e = e} {G = G} (some p) i ctype n d)
  unfolding scan_typed
  scan_typed-Stays i ctype n to_bool =
      Stays-if n _ _ (Stays-pure _) (int64-Stays i (λ x. ok (a_bool (not (is_zero x)))))
  scan_typed-Stays i ctype n to_int = scan_int-Stays (λ x. an_int x) n i
  scan_typed-Stays i ctype n to_int32 = scan_int-Stays (λ x. an_int32 (wrap 32 x)) n i
  scan_typed-Stays i ctype n to_int64 = scan_int-Stays (λ x. an_int64 x) n i
  scan_typed-Stays i ctype n to_float32 =
      Stays-if n _ _ (Stays-pure _) (double-Stays i (λ x. ok (a_float32 (e.narrow x))))
  scan_typed-Stays i ctype n to_float64 =
      Stays-if n _ _ (Stays-pure _) (double-Stays i (λ x. ok (a_float64 x)))
  scan_typed-Stays i ctype n to_string =
      Stays-if n _ _ (Stays-pure _) (text-Stays i (λ t. ok (a_string (go_text t))))
  scan_typed-Stays i ctype n to_time =
      Stays-if n _ _ (Stays-pure _) (Stays-map _ (as_time ctype) (column_to_any-Stays i ctype))
  scan_typed-Stays i ctype n to_bytes =
      Stays-if n _ _ (Stays-pure _) (blob-Stays i (λ b. ok (a_slice (non_empty b))))
  scan_typed-Stays i ctype n to_any = Stays-map _ (λ v. ok (an_any v)) (column_to_any-Stays i ctype)
  scan_typed-Stays i ctype n (to_other t) = Stays-pure _

  pub scan_column-Stays : (i : ℤ) (d : Dest) → Stays h g (scan_column {e = e} {G = G} (some p) i d)
  unfolding scan_column column_type_at
  scan_column-Stays i d =
      Stays-bind _ (λ ctype. scan_typed (some p) i ctype (eq_ℤ ctype type_null) d)
        (column_read-Stays _) (λ ctype. scan_typed-Stays i ctype _ d)

  pub column_read-Keeps :
      {A : Type 0} (f : e.State → ℕ → A) → Keeps h g (column_read {e = e} {G = G} f (some p))
  column_read-Keeps f = Stays-Keeps _ (column_read-Stays f)

  pub column_to_any-Keeps :
      (i ctype : ℤ) → Keeps h g (column_to_any {e = e} {G = G} (some p) i ctype)
  column_to_any-Keeps i ctype = Stays-Keeps _ (column_to_any-Stays i ctype)

  -- `scanColumn` on a live statement that is at a row returns, whatever the column's type and the
  -- destination, and changes no C object and no Go object.
  pub scan_column-Keeps : (i : ℤ) (d : Dest) → Keeps h g (scan_column {e = e} {G = G} (some p) i d)
  scan_column-Keeps i d = Stays-Keeps _ (scan_column-Stays i d)
