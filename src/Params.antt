-- ===== src/Params.antt =====
-- embedded/param.go: Go values bound as statement parameters.
pub mod Rules
pub mod Bounds
pub mod Reference
use zeta_go.Prelude.{
  ℕ, zero, suc, ◌+◌, ◌^◌, Bool, true, false, Option, none, some, List, [], ◌∷◌, ltb, not,
  if◌then◌else◌,
}
use zeta_go.Prelude.Lists.{length}
use zeta_go.Prelude.Int.{ℤ, pos, wrap, eq_ℤ}
use zeta_go.Machine.{
  Bytes, Ptr, Platform, World, M, Bound, null, bool, int64, int32, double, text, blob, vector, pure,
  ◌>>=◌, ◌>>◌,
}
use zeta_go.Errors.{
  ZetaError, GoError, zeta, bind_parameter, uint_exceeds, uint64_exceeds, unsupported_parameter,
  Result, ok, err, error_kind_from_code,
}
use zeta_go.Errors.Report.{stmt_error}
use zeta_go.Capi.{zeta_ok, c_string_of, free, zeta_bind}

-- The types that `bindOne` tells apart; of any other it keeps the name.
pub data Param (e : Platform) : Type 0 where
  nil : Param e
  go_bool : Bool → Param e
  go_int go_int32 go_int64 : ℤ → Param e
  go_uint go_uint32 go_uint64 : ℕ → Param e
  go_float32 : e.Float → Param e
  go_float64 : e.Double → Param e
  go_string : Bytes → Param e
  go_bytes : Bytes → Param e
  go_floats : List e.Float → Param e
  other : Bytes → Param e

-- `C.int(n)` of a length or an index
abbrev pub c_int : ℕ → ℤ
c_int n = wrap 32 (pos n)

-- 1<<63 - 1
abbrev pub max_int64 : ℕ
max_int64 = 9223372036854775807

module _ {e : Platform} {G : Type 0} where
  bound : Ptr → ℤ → Bound e.Float e.Double → M e G (Result ℤ)
  bound stmt i v = do rc ← zeta_bind stmt i v; pure (ok rc)

  -- `bindOne`
  unfoldable pub bind_one : Ptr → ℤ → Param e → M e G (Result ℤ)
  unfolding bound
  bind_one stmt i nil = bound stmt i null
  bind_one stmt i (go_bool v) = bound stmt i (bool (if v then pos 1 else pos 0))
  bind_one stmt i (go_int v) = bound stmt i (int64 v)
  bind_one stmt i (go_int32 v) = bound stmt i (int32 v)
  bind_one stmt i (go_int64 v) = bound stmt i (int64 v)
  bind_one stmt i (go_uint v) =
      if ltb max_int64 v
      then pure (err (uint_exceeds v))
      else bound stmt i (int64 (wrap 64 (pos v)))
  bind_one stmt i (go_uint32 v) = bound stmt i (int64 (wrap 64 (pos v)))
  bind_one stmt i (go_uint64 v) =
      if ltb max_int64 v
      then pure (err (uint64_exceeds v))
      else bound stmt i (int64 (wrap 64 (pos v)))
  bind_one stmt i (go_float32 v) = bound stmt i (double (e.widen v))
  bind_one stmt i (go_float64 v) = bound stmt i (double v)
  bind_one stmt i (go_string v) = do
    cs ← c_string_of
    rc ← zeta_bind stmt i (text v (c_int (length v)))
    free cs
    pure (ok rc)
  bind_one stmt i (go_bytes v) = bound stmt i (blob v (c_int (length v)))
  bind_one stmt i (go_floats v) = bound stmt i (vector v (c_int (length v)))
  bind_one stmt i (other t) = pure (err (unsupported_parameter t))

  -- What the loop does with the answer of `bindOne` for parameter number `i`.
  after_bind : Ptr → ℕ → Result ℤ → M e G (Result (Unit {0})) → M e G (Result (Unit {0}))
  after_bind stmt i (err x) rest = pure (err (bind_parameter i x))
  after_bind stmt i (ok rc) rest =
      if not (eq_ℤ rc zeta_ok) then (do x ← stmt_error stmt rc; pure (err x)) else rest

  -- The loop of `bindParams`, from parameter number `i` on.
  bind_from : Ptr → ℕ → List (Param e) → M e G (Result (Unit {0}))
  unfolding after_bind
  bind_from stmt i [] w = pure (ok tt) w
  bind_from stmt i (p ∷ ps) w =
      (do r ← bind_one stmt (c_int i) p; after_bind stmt i r (bind_from stmt (i + 1) ps)) w

  unfoldable pub bind_params : Ptr → List (Param e) → M e G (Result (Unit {0}))
  unfolding bind_from
  bind_params stmt ps = bind_from stmt 1 ps
