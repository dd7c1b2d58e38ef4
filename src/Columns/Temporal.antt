-- ===== src/Columns/Temporal.antt =====
-- Columns scanned into a *time.Time.
use zeta_go.Prelude.{ℕ, ◌<◌, ◌≡◌, refl, ap, ◌∙◌, sym, true, false, ◌⊎◌, inl, inr, Option, some}
use mathlib.Core.Path.{subst}
use zeta_go.Prelude.Int.{ℤ, pos, eq_ℤ, InRange, scale, wrap}
use zeta_go.Machine.{Platform, World, Heap, pure, ◌>>=◌, statement}
use zeta_go.Machine.Rules.{Returns, Returns-returns, Returns-chain}
use zeta_go.Machine.Heaps.{At}
use zeta_go.Errors.{Result, ok, err, not_temporal}
use zeta_go.Columns.Bounds.{column_read_answer}
use zeta_go.Columns.Kinds.{is_temporal, is_natural, column_to_any-natural}
use zeta_go.Columns.Times.{
  micros_of, micros_of-unix_micro, midnight, unix-midnight, clock, time_of_day-clock,
}
use zeta_go.Columns.{
  Time, Value, nil, int64, float64, string, bytes, bool, time, Stored, a_time, type_null,
  type_timestamp, type_timestamptz, type_date, type_time, unix, unix_micro, time_of_day, as_time,
  to_time, zero_time, int64_at, column_to_any, column_type_at, scan_typed, scan_column,
}

-- A column of a temporal type whose number is in that type's range: microseconds since 1970 in an
-- int64, days since 1970 in an int32, or microseconds in a day.
abbrev pub InSpan : ℤ → ℤ → Type 0
InSpan c n =
    (((c ≡ type_timestamp) ⊎ (c ≡ type_timestamptz)) × InRange 64 n)
    ⊎ ((c ≡ type_date) × InRange 32 n)
    ⊎ ((c ≡ type_time) × (m : ℕ) × (n ≡ pos m) × (m < 86400000000))

-- The time that the number of a temporal column stands for.
pub data Stands : ℤ → ℤ → Time → Type 0 where
  timestamp : (n : ℤ) (t : Time) → micros_of t ≡ n → Stands type_timestamp n t
  timestamptz : (n : ℤ) (t : Time) → micros_of t ≡ n → Stands type_timestamptz n t
  date : (n : ℤ) → Stands type_date n (midnight n)
  of_day : (m : ℕ) → Stands type_time (pos m) (clock m)

-- What a column of type `c` and number `n` stores into a *time.Time, or answers.
pub data Times (e : Platform) : ℤ → ℤ → Result (Stored e) → Type 0 where
  null : (n : ℤ) → Times e type_null n (ok (a_time zero_time))
  temporal : (c n : ℤ) (t : Time) → Stands c n t → Times e c n (ok (a_time t))
  apart :
      (c n : ℤ)
      → eq_ℤ c type_null ≡ false
      → is_temporal c ≡ false
      → Times e c n (err (not_temporal c))

as_time-apart :
    {e : Platform} (c : ℤ) (v : Value e)
    → is_temporal c ≡ false
    → is_natural c v ≡ true
    → as_time c v ≡ err (not_temporal c)
as_time-apart c nil q y = refl
as_time-apart c (int64 n) q y = refl
as_time-apart c (float64 x) q y = refl
as_time-apart c (string t) q y = refl
as_time-apart c (bytes b) q y = refl
as_time-apart c (bool b) q y = refl
as_time-apart c (time t) q y = cc (sym q ∙ y)

-- A NULL, a temporal column in its range, or a column that is not temporal.
abbrev pub Expected : ℤ → ℤ → Type 0
Expected c n = (c ≡ type_null) ⊎ InSpan c n ⊎ ((eq_ℤ c type_null ≡ false) × (is_temporal c ≡ false))

module _ {e : Platform} {G : Type 0} {h : Heap} {g : G} (p : ℕ) (owner : Option ℕ) (i : ℤ)
    (live : h p ≡ some (statement owner true)) where
  -- The number `n`, converted by `f`.
  converted :
      (c n : ℤ) (f : ℤ → Time) (w : World e G)
      → At h g w
      → e.column_int64 w.engine p i ≡ n
      → Stands c n (f n)
      → Returns {A = Result (Stored e) × World e G}
          (((int64_at (some p) i >>= λ n. pure (time (f n))) >>= λ v. pure (as_time c v)) w)
          (λ r. Times e c n r.0)
  unfolding int64_at
  converted c n f w a x s =
      Returns-chain _ _
        (Returns-chain _ _ (column_read_answer p owner live w a (λ s q. e.column_int64 s q i))
          (λ r b. Returns-returns {P = λ r. r.0 ≡ time (f n)} _ (ap (λ m. time (f m)) (b.0 ∙ x))))
        (λ r b.
          Returns-returns _ (subst (λ v. Times e c n (as_time c v)) (sym b) (temporal c n (f n) s)))

  not_time :
      (c n : ℤ) (w : World e G)
      → At h g w
      → is_temporal c ≡ false
      → eq_ℤ c type_null ≡ false
      → Returns (scan_typed (some p) i c false to_time w) (λ r. Times e c n r.0)
  unfolding scan_typed
  not_time c n w a q filled =
      Returns-chain _ _ ((column_to_any-natural p owner live i c).at w a) (λ r b.
        Returns-returns _
          (subst (Times e c n) (sym (as_time-apart c r.0 q b.0)) (apart c n filled q)))

  stamped :
      (c n : ℤ) (w : World e G)
      → At h g w
      → e.column_int64 w.engine p i ≡ n
      → InSpan c n
      → Returns (scan_typed (some p) i c (eq_ℤ c type_null) to_time w) (λ r. Times e c n r.0)
  unfolding scan_typed column_to_any
  stamped c n w a x (inl (inl q, small)) = rw q (
      converted type_timestamp n unix_micro w a x
        (timestamp n (unix_micro n) (micros_of-unix_micro n small)))
  stamped c n w a x (inl (inr q, small)) = rw q (
      converted type_timestamptz n unix_micro w a x
        (timestamptz n (unix_micro n) (micros_of-unix_micro n small)))
  stamped c n w a x (inr (inl (q, small))) = rw q (
      converted type_date n (λ n. unix (wrap 64 (scale 86400 n))) w a x
        (subst (Stands type_date n) (sym (unix-midnight n small)) (date n)))
  stamped c n w a x (inr (inr (q, m, y, small))) =
      rw (q, y)
        (converted type_time (pos m) time_of_day w a (x ∙ y)
          (subst (Stands type_time (pos m)) (sym (time_of_day-clock m small)) (of_day m)))

  typed :
      (c n : ℤ) (w : World e G)
      → At h g w
      → e.column_int64 w.engine p i ≡ n
      → Expected c n
      → Returns (scan_typed (some p) i c (eq_ℤ c type_null) to_time w) (λ r. Times e c n r.0)
  unfolding scan_typed
  typed c n w a x (inl q) = rw q (Returns-returns _ (null n))
  typed c n w a x (inr (inl s)) = stamped c n w a x s
  typed c n w a x (inr (inr (filled, q))) =
      subst (λ b. Returns (scan_typed (some p) i c b to_time w) (λ r. Times e c n r.0)) (sym filled)
        (not_time c n w a q filled)

-- A column scanned into a *time.Time at a row of a live statement: `scanColumn` stores the zero time
-- for NULL. For a TIMESTAMP or TIMESTAMPTZ with any int64 it stores the time of that microsecond, for
-- a DATE in the range of int32 the midnight of that day, and for a TIME within a day that time on
-- 0000-01-01: nothing wraps. For a column that is not temporal it answers that error.
pub scan_column-to_time :
    {e : Platform} {G : Type 0} {h : Heap} {g : G} (p : ℕ) (owner : Option ℕ) (i : ℤ)
    (w : World e G)
    → h p ≡ some (statement owner true)
    → At h g w
    → Expected (e.column_type w.engine p i) (e.column_int64 w.engine p i)
    → Returns
        (scan_column (some p) i to_time w)
        (λ r. Times e (e.column_type w.engine p i) (e.column_int64 w.engine p i) r.0)
unfolding scan_column column_type_at
scan_column-to_time {e} p owner i w live a k =
    let c = e.column_type w.engine p i in
    let n = e.column_int64 w.engine p i in
    Returns-chain _ _ (column_read_answer p owner live w a (λ s q. e.column_type s q i)) (λ r b.
      subst
        (λ t.
          Returns (scan_typed (some p) i t (eq_ℤ t type_null) to_time r.1) (λ s. Times e c n s.0))
        (sym b.0) (typed p owner i live c n r.1 b.2 (ap (λ s. e.column_int64 s p i) b.1) k))
