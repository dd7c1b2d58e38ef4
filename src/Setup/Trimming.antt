-- ===== src/Setup/Trimming.antt =====
-- strings.TrimSpace, and strings.Fields on words that spaces separate.
use zeta_go.Prelude.{◌≡◌, refl, [], ◌∷◌, ◌++◌, arith}
use zeta_go.Machine.{Bytes}
use zeta_go.Schema.{newline}
use zeta_go.Setup.Text.{trim_left, trim_end, trim_space}

trim_end-newline : (s : Bytes) → trim_end (s ++ newline ∷ []) ≡ trim_end s
unfolding trim_end
trim_end-newline [] = refl
trim_end-newline (c ∷ s) = rw (trim_end-newline s) refl

-- A newline at the end is trimmed.
pub trim_space-newline : (s : Bytes) → trim_space (s ++ newline ∷ []) ≡ trim_space s
unfolding trim_space trim_left trim_end
trim_space-newline [] = refl
trim_space-newline (c ∷ s) = ground (arith, trim_space-newline s, trim_end-newline s)

trim_end-trim_end : (s : Bytes) → trim_end (trim_end s) ≡ trim_end s
unfolding trim_end
trim_end-trim_end [] = refl
trim_end-trim_end (c ∷ s) = ground (arith, trim_end-trim_end s)

trim_left-trim_end : (s : Bytes) → trim_left (trim_end (trim_left s)) ≡ trim_end (trim_left s)
unfolding trim_left trim_end
trim_left-trim_end [] = refl
trim_left-trim_end (c ∷ s) = ground (arith, trim_left-trim_end s)

-- Trimming twice is trimming once.
pub trim_space-trim_space : (s : Bytes) → trim_space (trim_space s) ≡ trim_space s
unfolding trim_space
trim_space-trim_space s = rw (trim_left-trim_end s) (trim_end-trim_end (trim_left s))
