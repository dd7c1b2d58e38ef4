-- ===== src/Driver/Timestamp.antt =====
-- embedded/driver.go: `t.UTC().Format("2006-01-02 15:04:05.999999")`, as the `time` package does it
-- for a time in UTC.
use zeta_go.Prelude.{
  ℕ, zero, suc, ◌+◌, ◌-◌, ◌*◌, ◌/◌, ◌%◌, ◌≡◌, refl, [], ◌∷◌, ◌++◌, ltb, ◌==◌, if◌then◌else◌,
}
use zeta_go.Prelude.Int.{ℤ, pos, negsuc, ◌+ℤ◌, scale, floor_div, floor_mod}
use zeta_go.Machine.{Bytes}
use zeta_go.Errors.{codes}
use zeta_go.Columns.{Time}

-- `k` decimal digits, zeros first.
unfoldable pub digits : ℕ → ℕ → Bytes
digits zero n = []
digits (suc k) n = digits k (n / 10) ++ (b'0' + n % 10) ∷ []

-- How many decimal digits a number has, at most `k`.
width : ℕ → ℕ → ℕ
width zero n = 0
width (suc k) n = let rest = width k (n / 10) in if ltb n 10 then 1 else suc rest

-- A year in at least four digits, as the layout "2006" wants. The seconds of an int64 are within
-- years of twelve digits.
year_digits : ℕ → Bytes
unfolding digits width
year_digits y = digits (if ltb y 10000 then 4 else width 12 y) y

year_text : ℤ → Bytes
unfolding year_digits
year_text (pos y) = year_digits y
year_text (negsuc y) = b'-' ∷ year_digits (y + 1)

-- The date of a day, counted from 0000-03-01: the year, and the month and day in it. A cycle of
-- 400 years has 146097 days.
pub record Date : Type 0 where
  pub year : ℤ
  pub month : ℕ
  pub day : ℕ

month_of : ℕ → ℕ
month_of mp = if ltb mp 10 then mp + 3 else mp - 9

unfoldable pub date_of : ℤ → Date
unfolding month_of
date_of days =
    let era = floor_div days 146097 in
    let doe = floor_mod days 146097 in
    let yoe = (doe - doe / 1460 + doe / 36524 - doe / 146096) / 365 in
    let doy = doe - (365 * yoe + yoe / 4 - yoe / 100) in
    let mp = (5 * doy + 2) / 153 in
    record {
      year = scale 400 era +ℤ pos (if ltb mp 10 then yoe else yoe + 1);
      month = month_of mp;
      day = doy - (153 * mp + 2) / 5 + 1;
    }

-- Trailing zeros of a fraction are dropped, and its point with them.
unfoldable pub trim_zeros : Bytes → Bytes
trim_zeros [] = []
trim_zeros (c ∷ s) =
    let rest = trim_zeros s in
    elim rest [ [] ↦ if c == b'0' then [] else c ∷ [] | d ∷ r ↦ c ∷ d ∷ r ]

fraction_text : Bytes → Bytes
fraction_text [] = []
fraction_text (c ∷ s) = b'.' ∷ c ∷ s

-- `.999999`
unfoldable pub fraction : ℕ → Bytes
unfolding digits trim_zeros fraction_text
fraction nsec = fraction_text (trim_zeros (digits 6 (nsec / 1000)))

date_text : Date → Bytes
unfolding year_text digits
date_text d = year_text d.year ++ codes "-" ++ digits 2 d.month ++ codes "-" ++ digits 2 d.day

clock_text : ℕ → Bytes
unfolding digits
clock_text s =
    digits 2 (s / 3600) ++ codes ":" ++ digits 2 (s / 60 % 60) ++ codes ":" ++ digits 2 (s % 60)

-- The year 1 begins 306 days after 0000-03-01.
unfoldable pub format : Time → Bytes
unfolding date_of date_text clock_text fraction
format t =
    date_text (date_of (floor_div t.sec 86400 +ℤ pos 306))
    ++ codes " "
    ++ clock_text (floor_mod t.sec 86400)
    ++ fraction t.nsec

-- 2026-01-15T12:34:56.500000 is 1768480496 seconds after 1970.
format_half_second :
    format (record { sec = pos (62135596800 + 1768480496); nsec = 500000000 })
    ≡ codes "2026-01-15 12:34:56.5"
unfolding format
format_half_second = refl

format_leap_day :
    format (record { sec = pos (62135596800 + 1709164800); nsec = 999 })
    ≡ codes "2024-02-29 00:00:00"
unfolding format
format_leap_day = refl

-- The year 1000000 is in seven digits, and -1 in four.
long_years : (year_text (pos 1000000) ≡ codes "1000000") × (year_text (negsuc 0) ≡ codes "-0001")
unfolding year_text
long_years = (refl, refl)
