-- ===== src/Columns/Times.antt =====
-- Where the conversions of times stay in Go's 64 bits.
use zeta_go.Prelude.{ℕ, ◌*◌, ◌/◌, ◌%◌, ◌<◌, ◌≡◌, refl, ap, ◌∙◌, arith}
use zeta_go.Prelude.Int.{ℤ, pos, negsuc, InRange, wrap, scale, floor_div, floor_mod, ◌+ℤ◌}
use zeta_go.Columns.{Time, unix, unix_micro, unix_to_internal, time_of_day, year_zero}

pub wrap64-InRange : (n : ℤ) → InRange 64 n → wrap 64 n ≡ n
unfolding wrap
wrap64-InRange (pos n) small = ground arith
wrap64-InRange (negsuc n) small = ground arith

-- The microseconds since 1970 of a time.
abbrev pub micros_of : Time → ℤ
micros_of t = scale 1000000 (t.sec +ℤ negsuc 62135596799) +ℤ pos (t.nsec / 1000)

seconds-InRange : (n : ℤ) → InRange 64 n → InRange 64 (floor_div n 1000000 +ℤ unix_to_internal)
seconds-InRange (pos n) small = ground arith
seconds-InRange (negsuc n) small = ground arith

micros-exact :
    (n : ℤ)
    → micros_of (record {
      sec = floor_div n 1000000 +ℤ unix_to_internal;
      nsec = floor_mod n 1000000 * 1000;
    })
      ≡ n
micros-exact (pos n) = ground arith
micros-exact (negsuc n) = ground arith

-- `time.UnixMicro` of any int64 is that time.
pub micros_of-unix_micro : (n : ℤ) → InRange 64 n → micros_of (unix_micro n) ≡ n
unfolding unix_micro
micros_of-unix_micro n small = rw (wrap64-InRange _ (seconds-InRange n small)) (micros-exact n)

-- The days since 1970 of a time at midnight.
days-InRange : (n : ℤ) → InRange 32 n → InRange 64 (scale 86400 n)
days-InRange (pos n) small = ground arith
days-InRange (negsuc n) small = ground arith

midnight-InRange : (n : ℤ) → InRange 32 n → InRange 64 (scale 86400 n +ℤ unix_to_internal)
midnight-InRange (pos n) small = ground arith
midnight-InRange (negsuc n) small = ground arith

-- The midnight of a day, counted from 1970.
abbrev pub midnight : ℤ → Time
midnight n = record { sec = scale 86400 n +ℤ unix_to_internal; nsec = 0 }

pub unix-midnight : (n : ℤ) → InRange 32 n → unix (wrap 64 (scale 86400 n)) ≡ midnight n
unfolding unix
unix-midnight n small =
    ap unix (wrap64-InRange (scale 86400 n) (days-InRange n small))
    ∙ rw (wrap64-InRange (scale 86400 n +ℤ unix_to_internal) (midnight-InRange n small)) refl

-- `n` microseconds after the start of the day 0000-01-01.
abbrev pub clock : ℕ → Time
clock n = record { sec = year_zero +ℤ pos (n / 1000000); nsec = n % 1000000 * 1000 }

nanoseconds : (n : ℕ) → 1000 * n / 1000000000 ≡ n / 1000000
nanoseconds n = omega arith

rest : (n : ℕ) → 1000 * n % 1000000000 ≡ n % 1000000 * 1000
rest n = omega arith

thousand : (n : ℕ) → scale 1000 (pos n) ≡ pos (1000 * n)
thousand n = ground arith

pub time_of_day-clock : (n : ℕ) → n < 86400000000 → time_of_day (pos n) ≡ clock n
unfolding time_of_day
time_of_day-clock n small =
    rw (wrap64-InRange (scale 1000 (pos n)) (ground arith), thousand n)
      (λ i. record { sec = year_zero +ℤ pos (nanoseconds n i); nsec = rest n i })
