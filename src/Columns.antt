-- ===== src/Columns.antt =====
-- embedded/query.go: the value of a column, boxed (`columnToAny`) or copied to a destination
-- (`scanColumn`).
pub mod Rules
pub mod Bounds
pub mod Times
pub mod Kinds
pub mod Temporal
pub mod Boxed
pub mod Copied
use zeta_go.Prelude.{
  ℕ, ◌+◌, ◌*◌, ◌==◌, ◌||◌, ◌&&◌, not, Bool, true, false, Option, none, some, [], ◌∷◌, if◌then◌else◌,
}
use zeta_go.Prelude.Lists.{length}
use zeta_go.Prelude.Int.{ℤ, pos, negsuc, eq_ℤ, wrap, ◌+ℤ◌, scale, floor_div, floor_mod}
use zeta_go.Machine.{Bytes, Ptr, Platform, M, pure, ◌>>=◌, ◌>>◌}
use zeta_go.Errors.{GoError, not_temporal, unsupported_destination, Result, ok, err}
use zeta_go.Params.{c_int}
use zeta_go.Capi.{column_read}

-- Go's time.Time in UTC: seconds since the year 1, an int64, and nanoseconds.
pub record Time : Type 0 where
  pub sec : ℤ
  pub nsec : ℕ

abbrev pub unix_to_internal : ℤ
unix_to_internal = pos 62135596800

-- `time.Date(0, 1, 1, 0, 0, 0, 0, time.UTC)`: 366 days before the year 1
abbrev pub year_zero : ℤ
year_zero = negsuc 31622399

-- `time.Unix(sec, 0)`
unfoldable pub unix : ℤ → Time
unix s = record { sec = wrap 64 (s +ℤ unix_to_internal); nsec = 0 }

-- `time.UnixMicro`
unfoldable pub unix_micro : ℤ → Time
unix_micro us = record {
  sec = wrap 64 (floor_div us 1000000 +ℤ unix_to_internal);
  nsec = floor_mod us 1000000 * 1000;
}

-- `time.Date(0, 1, 1, …).Add(time.Duration(us) * time.Microsecond)`
unfoldable pub time_of_day : ℤ → Time
time_of_day us =
    let d = wrap 64 (scale 1000 us) in
    record { sec = year_zero +ℤ floor_div d 1000000000; nsec = floor_mod d 1000000000 }

-- A value of Go's `any`.
pub data Value (e : Platform) : Type 0 where
  nil : Value e
  int64 : ℤ → Value e
  float64 : e.Double → Value e
  string : Bytes → Value e
  bytes : Bytes → Value e
  bool : Bool → Value e
  time : Time → Value e

-- ZETA_TYPE_NULL … ZETA_TYPE_TIME
abbrev pub type_null : ℤ
type_null = pos 0

abbrev pub type_int : ℤ
type_int = pos 1

abbrev pub type_float : ℤ
type_float = pos 2

abbrev pub type_text : ℤ
type_text = pos 3

abbrev pub type_blob : ℤ
type_blob = pos 4

abbrev pub type_bool : ℤ
type_bool = pos 5

abbrev pub type_timestamp : ℤ
type_timestamp = pos 10

abbrev pub type_timestamptz : ℤ
type_timestamptz = pos 11

abbrev pub type_date : ℤ
type_date = pos 12

abbrev pub type_time : ℤ
type_time = pos 13

-- `C.GoString`: NULL is the empty string.
abbrev pub go_text : Option Bytes → Bytes
go_text none = []
go_text (some b) = b

abbrev is_zero : ℤ → Bool
is_zero n = eq_ℤ n (pos 0)

module _ {e : Platform} where
  abbrev blob_or_nil : Option Bytes → Value e
  blob_or_nil none = nil
  blob_or_nil (some b) = bytes b

  abbrev text_or_nil : Option Bytes → Value e
  text_or_nil none = nil
  text_or_nil (some b) = string b

module _ {e : Platform} {G : Type 0} where
  pub int64_at : Ptr → ℤ → M e G ℤ
  int64_at stmt i = column_read (λ s p. e.column_int64 s p i) stmt

  double_at : Ptr → ℤ → M e G e.Double
  double_at stmt i = column_read (λ s p. e.column_double s p i) stmt

  pub text_at : Ptr → ℤ → M e G (Option Bytes)
  text_at stmt i = column_read (λ s p. e.column_text s p i) stmt

  -- The bytes of a blob, with the length that C reports for them.
  blob_at : Ptr → ℤ → M e G (Option Bytes)
  blob_at stmt i = column_read (λ s p. e.column_blob s p i) stmt

  unfoldable pub column_type_at : Ptr → ℤ → M e G ℤ
  column_type_at stmt i = column_read (λ s p. e.column_type s p i) stmt

  -- `columnToAny`
  unfoldable pub column_to_any : Ptr → ℤ → ℤ → M e G (Value e)
  unfolding int64_at double_at text_at blob_at
  column_to_any stmt i ctype =
      if eq_ℤ ctype type_null
      then pure nil
      else if eq_ℤ ctype type_int
      then (do n ← int64_at stmt i; pure (int64 n))
      else if eq_ℤ ctype type_float
      then (do x ← double_at stmt i; pure (float64 x))
      else if eq_ℤ ctype type_text
      then (do t ← text_at stmt i; pure (string (go_text t)))
      else if eq_ℤ ctype type_blob
      then (do b ← blob_at stmt i; pure (blob_or_nil b))
      else if eq_ℤ ctype type_bool
      then (do n ← int64_at stmt i; pure (bool (not (is_zero n))))
      else if eq_ℤ ctype type_timestamp || eq_ℤ ctype type_timestamptz
      then (do n ← int64_at stmt i; pure (time (unix_micro n)))
      else if eq_ℤ ctype type_date
      then (do n ← int64_at stmt i; pure (time (unix (wrap 64 (scale 86400 n)))))
      else if eq_ℤ ctype type_time
      then (do n ← int64_at stmt i; pure (time (time_of_day n)))
      else (do t ← text_at stmt i; pure (text_or_nil t))

-- The destinations that `scanColumn` tells apart; of any other pointer it keeps the type's name.
pub data Dest : Type 0 where
  to_bool to_int to_int32 to_int64 to_float32 to_float64 to_string to_time to_bytes to_any : Dest
  to_other : Bytes → Dest

-- What is stored through a destination.
pub data Stored (e : Platform) : Type 0 where
  a_bool : Bool → Stored e
  an_int an_int32 an_int64 : ℤ → Stored e
  a_float32 : e.Float → Stored e
  a_float64 : e.Double → Stored e
  a_string : Bytes → Stored e
  a_time : Time → Stored e
  -- `none` is the nil slice
  a_slice : Option Bytes → Stored e
  an_any : Value e → Stored e

-- `time.Time{}`
abbrev pub zero_time : Time
zero_time = record { sec = pos 0; nsec = 0 }

-- A nil or empty blob is stored as the nil slice.
abbrev non_empty : Option Bytes → Option Bytes
non_empty none = none
non_empty (some []) = none
non_empty (some (c ∷ b)) = some (c ∷ b)

module _ {e : Platform} where
  abbrev pub as_time : ℤ → Value e → Result (Stored e)
  as_time ctype (time t) = ok (a_time t)
  as_time ctype _ = err (not_temporal ctype)

module _ {e : Platform} {G : Type 0} where
  scan_int : (ℤ → Stored e) → Bool → Ptr → ℤ → M e G (Result (Stored e))
  unfolding int64_at
  scan_int f is_null stmt i =
      if is_null then pure (ok (f (pos 0))) else (do n ← int64_at stmt i; pure (ok (f n)))

  -- The type switch of `scanColumn`, for a column of type `ctype`.
  scan_typed : Ptr → ℤ → ℤ → Bool → Dest → M e G (Result (Stored e))
  unfolding int64_at double_at text_at blob_at scan_int
  scan_typed stmt i ctype is_null to_bool =
      if is_null
      then pure (ok (a_bool false))
      else (do n ← int64_at stmt i; pure (ok (a_bool (not (is_zero n)))))
  scan_typed stmt i ctype is_null to_int = scan_int (λ n. an_int n) is_null stmt i
  scan_typed stmt i ctype is_null to_int32 = scan_int (λ n. an_int32 (wrap 32 n)) is_null stmt i
  scan_typed stmt i ctype is_null to_int64 = scan_int (λ n. an_int64 n) is_null stmt i
  scan_typed stmt i ctype is_null to_float32 =
      if is_null
      then pure (ok (a_float32 e.float_zero))
      else (do x ← double_at stmt i; pure (ok (a_float32 (e.narrow x))))
  scan_typed stmt i ctype is_null to_float64 =
      if is_null
      then pure (ok (a_float64 e.double_zero))
      else (do x ← double_at stmt i; pure (ok (a_float64 x)))
  scan_typed stmt i ctype is_null to_string =
      if is_null
      then pure (ok (a_string []))
      else (do t ← text_at stmt i; pure (ok (a_string (go_text t))))
  scan_typed stmt i ctype is_null to_time =
      if is_null
      then pure (ok (a_time zero_time))
      else (do v ← column_to_any stmt i ctype; pure (as_time ctype v))
  scan_typed stmt i ctype is_null to_bytes =
      if is_null
      then pure (ok (a_slice none))
      else (do b ← blob_at stmt i; pure (ok (a_slice (non_empty b))))
  scan_typed stmt i ctype is_null to_any = do v ← column_to_any stmt i ctype; pure (ok (an_any v))
  scan_typed stmt i ctype is_null (to_other t) = pure (err (unsupported_destination t))

  -- `scanColumn`
  unfoldable pub scan_column : Ptr → ℤ → Dest → M e G (Result (Stored e))
  unfolding scan_typed
  scan_column stmt i d = do
    ctype ← column_type_at stmt i
    scan_typed stmt i ctype (eq_ℤ ctype type_null) d
