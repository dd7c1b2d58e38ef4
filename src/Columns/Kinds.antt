-- ===== src/Columns/Kinds.antt =====
-- The Go types of what `columnToAny` reads: the natural one for the type of the column.
use zeta_go.Prelude.{ℕ, ◌≡◌, Bool, true, false, not, ◌||◌, Option, none, some, arith}
use zeta_go.Prelude.Int.{ℤ, eq_ℤ, wrap, scale}
use zeta_go.Machine.{Bytes, Platform, Heap, pure, ◌>>=◌, statement}
use zeta_go.Machine.Gives.{Gives, Gives-pure, Gives-if, Gives-map}
use zeta_go.Capi.{column_read}
use zeta_go.Columns.Rules.{column_read-Keeps}
use zeta_go.Columns.{
  Time, Value, nil, int64, float64, string, bytes, bool, time, type_null, type_int, type_float,
  type_text, type_blob, type_bool, type_timestamp, type_timestamptz, type_date, type_time, int64_at,
  double_at, text_at, blob_at, blob_or_nil, text_or_nil, go_text, is_zero, unix_micro, unix,
  time_of_day, column_to_any,
}

abbrev pub is_temporal : ℤ → Bool
is_temporal c =
    eq_ℤ c type_timestamp || eq_ℤ c type_timestamptz || eq_ℤ c type_date || eq_ℤ c type_time

-- A type code that `columnToAny` has a case for.
abbrev pub is_known : ℤ → Bool
is_known c =
    eq_ℤ c type_null
    || eq_ℤ c type_int
    || eq_ℤ c type_float
    || eq_ℤ c type_text
    || eq_ℤ c type_blob
    || eq_ℤ c type_bool
    || is_temporal c

-- The natural Go types for a column's type: nil for NULL, int64, float64, string, []byte or nil,
-- bool and time.Time, and a string or nil for any other code.
abbrev pub is_natural : {e : Platform} → ℤ → Value e → Bool
is_natural c nil = eq_ℤ c type_null || eq_ℤ c type_blob || not (is_known c)
is_natural c (int64 n) = eq_ℤ c type_int
is_natural c (float64 x) = eq_ℤ c type_float
is_natural c (string t) = eq_ℤ c type_text || not (is_known c)
is_natural c (bytes b) = eq_ℤ c type_blob
is_natural c (bool b) = eq_ℤ c type_bool
is_natural c (time t) = is_temporal c

module _ (e : Platform) (c : ℤ) where
  null-natural : eq_ℤ c type_null ≡ true → is_natural {e = e} c nil ≡ true
  null-natural q = ground (arith, q)

  string-natural : (t : Bytes) → eq_ℤ c type_text ≡ true → is_natural {e = e} c (string t) ≡ true
  string-natural t q = ground (arith, q)

  stamp-natural :
      (t : Time)
      → (eq_ℤ c type_timestamp || eq_ℤ c type_timestamptz) ≡ true
      → is_natural {e = e} c (time t) ≡ true
  stamp-natural t q = ground (arith, q)

  date-natural : (t : Time) → eq_ℤ c type_date ≡ true → is_natural {e = e} c (time t) ≡ true
  date-natural t q = ground (arith, q)

  time-natural : (t : Time) → eq_ℤ c type_time ≡ true → is_natural {e = e} c (time t) ≡ true
  time-natural t q = ground (arith, q)

  blob-natural :
      (b : Option Bytes) → eq_ℤ c type_blob ≡ true → is_natural {e = e} c (blob_or_nil b) ≡ true
  blob-natural none q = ground (arith, q)
  blob-natural (some b) q = q

  text-natural :
      (b : Option Bytes) → is_known c ≡ false → is_natural {e = e} c (text_or_nil b) ≡ true
  text-natural none q = ground (arith, q)
  text-natural (some b) q = ground (arith, q)

  unknown :
      eq_ℤ c type_null ≡ false
      → eq_ℤ c type_int ≡ false
      → eq_ℤ c type_float ≡ false
      → eq_ℤ c type_text ≡ false
      → eq_ℤ c type_blob ≡ false
      → eq_ℤ c type_bool ≡ false
      → (eq_ℤ c type_timestamp || eq_ℤ c type_timestamptz) ≡ false
      → eq_ℤ c type_date ≡ false
      → eq_ℤ c type_time ≡ false
      → is_known c ≡ false
  unknown n0 n1 n2 n3 n4 n5 n6 n7 n8 =
      rw (n0, n1, n2, n3, n4, n5)
        (stamps (eq_ℤ c type_timestamp) (eq_ℤ c type_timestamptz) _ _ n6 n7 n8)
    where
      stamps :
          (a b x y : Bool) → (a || b) ≡ false → x ≡ false → y ≡ false → (a || b || x || y) ≡ false
      stamps a b x y p q r = ground (arith, p, q, r)

module _ {e : Platform} {G : Type 0} {h : Heap} {g : G} (p : ℕ) (owner : Option ℕ)
    (live : h p ≡ some (statement owner true)) where
  read-Gives :
      {A B : Type 0} {P : B → Type 0} (f : e.State → ℕ → A) (k : A → B)
      → ((x : A) → P (k x))
      → Gives h g P (column_read {e = e} {G = G} f (some p) >>= λ x. pure (k x))
  read-Gives f k x = Gives-map _ k (column_read-Keeps p owner live f) x

  -- `columnToAny` at a row of a live statement returns a value of the natural Go type of the column
  -- type that it is given.
  pub column_to_any-natural :
      (i c : ℤ)
      → Gives h g (λ v. is_natural c v ≡ true) (column_to_any {e = e} {G = G} (some p) i c)
  unfolding column_to_any int64_at double_at text_at blob_at
  column_to_any-natural i c =
      Gives-if _ _ _ (λ q. Gives-pure nil (null-natural e c q))
        (λ n0.
          Gives-if _ _ _ (λ q. read-Gives _ (λ n. int64 n) (λ x. q))
            (λ n1.
              Gives-if _ _ _ (λ q. read-Gives _ (λ x. float64 x) (λ x. q))
                (λ n2.
                  Gives-if _ _ _
                    (λ q.
                      read-Gives _ (λ t. string (go_text t))
                        (λ x. string-natural e c (go_text x) q))
                    (λ n3.
                      Gives-if _ _ _
                        (λ q. read-Gives _ (λ b. blob_or_nil b) (λ x. blob-natural e c x q))
                        (λ n4.
                          Gives-if _ _ _ (λ q. read-Gives _ (λ n. bool (not (is_zero n))) (λ x. q))
                            (λ n5.
                              Gives-if _ _ _
                                (λ q.
                                  read-Gives _ (λ n. time (unix_micro n))
                                    (λ x. stamp-natural e c (unix_micro x) q))
                                (λ n6.
                                  Gives-if _ _ _
                                    (λ q.
                                      read-Gives _ (λ n. time (unix (wrap 64 (scale 86400 n))))
                                        (λ x. date-natural e c (unix (wrap 64 (scale 86400 x))) q))
                                    (λ n7.
                                      Gives-if _ _ _
                                        (λ q.
                                          read-Gives _ (λ n. time (time_of_day n))
                                            (λ x. time-natural e c (time_of_day x) q))
                                        (λ n8.
                                          read-Gives _ (λ t. text_or_nil t)
                                            (λ x.
                                              text-natural e c x
                                                (unknown e c n0 n1 n2 n3 n4 n5 n6 n7 n8)))))))))))
