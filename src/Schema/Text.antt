-- ===== src/Schema/Text.antt =====
-- Lines joined and split again.
use zeta_go.Prelude.{
  ℕ, ◌==◌, ◌≡◌, refl, ap, ◌∙◌, Bool, true, false, ◌&&◌, List, [], ◌∷◌, ◌++◌, arith, if◌then◌else◌,
}
use zeta_go.Prelude.Lists.{All}
use zeta_go.Machine.{Bytes}
use zeta_go.Schema.{is_empty, split, trim_right}

-- The separator does not occur.
abbrev pub Without : ℕ → Bytes → Type 0
Without c s = All (λ x. (x == c) ≡ false) s

-- The lines, each ended by the separator, or only parted by it.
abbrev pub ended_by : ℕ → Bytes → List Bytes → Bytes
ended_by c l [] = l ++ c ∷ []
ended_by c l (r ∷ rs) = l ++ c ∷ ended_by c r rs

abbrev parted_by : ℕ → Bytes → List Bytes → Bytes
parted_by c l [] = l
parted_by c l (r ∷ rs) = l ++ c ∷ parted_by c r rs

same_byte : (c : ℕ) → (c == c) ≡ true
same_byte c = ground arith

pub split-first : (c : ℕ) (l s : Bytes) → Without c l → split c (l ++ c ∷ s) ≡ l ∷ split c s
unfolding split
split-first c [] s h = rw (same_byte c) refl
split-first c (x ∷ l) s (other, h) = rw (split-first c l s h, other) refl

pub split-last : (c : ℕ) (l : Bytes) → Without c l → split c l ≡ l ∷ []
unfolding split
split-last c [] h = refl
split-last c (x ∷ l) (other, h) = rw (split-last c l h, other) refl

split-parted :
    (c : ℕ) (l : Bytes) (rs : List Bytes)
    → Without c l
    → All (Without c) rs
    → split c (parted_by c l rs) ≡ l ∷ rs
split-parted c l [] h hs = split-last c l h
split-parted c l (r ∷ rs) h (k, ks) =
    split-first c l (parted_by c r rs) h ∙ ap (λ t. l ∷ t) (split-parted c r rs k ks)

trim_right-end : (c : ℕ) (l : Bytes) → Without c l → trim_right c (l ++ c ∷ []) ≡ l
unfolding trim_right
trim_right-end c [] h = rw (same_byte c) refl
trim_right-end c (x ∷ l) (other, h) = rw (trim_right-end c l h, other) (either (is_empty l))
  where
    either : (b : Bool) → (if b && false then [] else x ∷ l) ≡ x ∷ l
    either true = refl
    either false = refl

is_empty-append : (a b : Bytes) → is_empty b ≡ false → is_empty (a ++ b) ≡ false
is_empty-append [] b h = h
is_empty-append (x ∷ a) b h = refl

trim_right-append :
    (c : ℕ) (a b t : Bytes)
    → trim_right c b ≡ t
    → is_empty t ≡ false
    → trim_right c (a ++ b) ≡ a ++ t
unfolding trim_right
trim_right-append c [] b t h k = h
trim_right-append c (x ∷ a) b t h k = rw (trim_right-append c a b t h k, is_empty-append a t k) refl

parted_by-full :
    (c : ℕ) (r : Bytes) (rs : List Bytes) → is_empty r ≡ false → is_empty (parted_by c r rs) ≡ false
parted_by-full c [] rs full = cc
parted_by-full c (x ∷ r) [] full = refl
parted_by-full c (x ∷ r) (s ∷ rs) full = refl

-- Trimming takes the last separator off, if no later line is empty.
trim_right-ended :
    (c : ℕ) (l : Bytes) (rs : List Bytes)
    → Without c l
    → All (Without c) rs
    → All (λ r. is_empty r ≡ false) rs
    → trim_right c (ended_by c l rs) ≡ parted_by c l rs
unfolding trim_right
trim_right-ended c l [] h hs full = trim_right-end c l h
trim_right-ended c l (r ∷ rs) h (k, ks) (f, fs) =
    trim_right-append c l (c ∷ ended_by c r rs) (c ∷ parted_by c r rs)
      (rw (trim_right-ended c r rs k ks fs, parted_by-full c r rs f) refl) refl

-- Lines that are ended by the separator come back, if no line but the first is empty.
pub split-trim_right :
    (c : ℕ) (l : Bytes) (rs : List Bytes)
    → Without c l
    → All (Without c) rs
    → All (λ r. is_empty r ≡ false) rs
    → split c (trim_right c (ended_by c l rs)) ≡ l ∷ rs
split-trim_right c l rs h hs full =
    ap (split c) (trim_right-ended c l rs h hs full) ∙ split-parted c l rs h hs
