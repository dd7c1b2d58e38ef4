-- ===== src/Prelude/Int.antt =====
-- Signed integers over the native numbers, and the fixed widths that Go and C give them.
use Prim.Native.Nat.{ℕ, suc, ◌+◌, ◌-◌, ◌*◌, ◌/◌, ◌%◌, ◌^◌, ◌<◌}
use mathlib.Core.Bool.{Bool, false}
use zeta_go.Prelude.Tests.{ltb, leb, ◌==◌, if◌then◌else◌}

-- `negsuc n` is -(n + 1).
pub data ℤ : Type 0 where
  pos : ℕ → ℤ
  negsuc : ℕ → ℤ

-- Equality of integers, as a test.
abbrev pub eq_ℤ : ℤ → ℤ → Bool
eq_ℤ (pos a) (pos b) = a == b
eq_ℤ (negsuc a) (negsuc b) = a == b
eq_ℤ _ _ = false

-- The number modulo 2^w, read in two's complement.
abbrev pub signed : ℕ → ℕ → ℤ
signed w n = let m = n % 2 ^ w in if ltb (m * 2) (2 ^ w) then pos m else negsuc (2 ^ w - m - 1)

-- Go's conversion of any integer to a signed type of `w` bits.
unfoldable pub wrap : ℕ → ℤ → ℤ
wrap w (pos n) = signed w n
wrap w (negsuc n) = signed w (2 ^ w - 1 - n % 2 ^ w)

-- The range of a signed type.
abbrev pub InRange : ℕ → ℤ → Type 0
InRange w (pos n) = n * 2 < 2 ^ w
InRange w (negsuc n) = n * 2 < 2 ^ w

-- a - b, as an integer.
abbrev pub sub_ℕ : ℕ → ℕ → ℤ
sub_ℕ a b = if leb b a then pos (a - b) else negsuc (b - a - 1)

abbrev pub pos_part : ℤ → ℕ
pos_part (pos n) = n
pos_part (negsuc n) = 0

abbrev pub neg_part : ℤ → ℕ
neg_part (pos n) = 0
neg_part (negsuc n) = suc n

infixl 65 ◌+ℤ◌
abbrev pub ◌+ℤ◌ : ℤ → ℤ → ℤ
a +ℤ b = sub_ℕ (pos_part a + pos_part b) (neg_part a + neg_part b)

-- A multiple, and the quotient and the remainder of division rounded down.
abbrev pub scale : ℕ → ℤ → ℤ
scale k a = sub_ℕ (k * pos_part a) (k * neg_part a)

abbrev pub floor_div : ℤ → ℕ → ℤ
floor_div (pos n) k = pos (n / k)
floor_div (negsuc n) k = negsuc (n / k)

abbrev pub floor_mod : ℤ → ℕ → ℕ
floor_mod (pos n) k = n % k
floor_mod (negsuc n) k = k - 1 - n % k
