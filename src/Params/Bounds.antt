-- ===== src/Params/Bounds.antt =====
-- Go's unsigned integers as parameters: the bound of int64.
use zeta_go.Prelude.{ℕ, ◌≡◌, ◌≤◌, arith}
use zeta_go.Prelude.Int.{pos, wrap}
use zeta_go.Params.{max_int64}

-- Go's conversion to int64 keeps a number up to 1<<63 - 1.
pub wrap-small : (n : ℕ) → n ≤ max_int64 → wrap 64 (pos n) ≡ pos n
unfolding wrap
wrap-small n small = ground arith
