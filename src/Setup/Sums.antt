-- ===== src/Setup/Sums.antt =====
-- SHA256SUMS as sha256sum prints it, and the search in it.
use zeta_go.Prelude.{
  ◌≡◌, refl, ap, ◌∙◌, Bool, true, false, ◌&&◌, not, List, [], ◌∷◌, ◌++◌, if◌then◌else◌, arith,
}
use zeta_go.Prelude.Lists.{eq_bytes}
use zeta_go.Machine.{Bytes}
use zeta_go.Schema.{is_empty, newline, split}
use zeta_go.Schema.Text.{Without, split-first}
use zeta_go.Setup.Text.{is_space, fields_from, fields, or_else, find_sum, wanted_sum}

-- A line of SHA256SUMS: the checksum, two spaces, the name.
pub record Sum : Type 0 where
  pub sum : Bytes
  pub name : Bytes

abbrev line : Sum → Bytes
line e = e.sum ++ 32 ∷ 32 ∷ e.name

abbrev pub print_sums : List Sum → Bytes
print_sums [] = []
print_sums (e ∷ es) = line e ++ newline ∷ print_sums es

abbrev no_space : Bytes → Bool
no_space [] = true
no_space (c ∷ s) = not (is_space c) && no_space s

abbrev is_word : Bytes → Bool
is_word s = not (is_empty s) && no_space s

-- Checksums and names are words.
abbrev pub are_words : List Sum → Bool
are_words [] = true
are_words (e ∷ es) = is_word e.sum && is_word e.name && are_words es

-- The checksum of the first entry for a name, or the empty text.
abbrev pub lookup : Bytes → List Sum → Bytes
lookup name [] = []
lookup name (e ∷ es) = if eq_bytes e.name name then e.sum else lookup name es

fields_from-word :
    (a s : Bytes)
    → no_space a ≡ true
    → fields_from (a ++ s) ≡ (a ++ (fields_from s).0, (fields_from s).1)
unfolding fields_from
fields_from-word [] s w = refl
fields_from-word (c ∷ a) s w = ground (arith, fields_from-word a s)

no_space-Without : (a : Bytes) → no_space a ≡ true → Without newline a
no_space-Without [] w = tt
no_space-Without (c ∷ a) w = (ground arith, no_space-Without a (ground arith))

line-Without :
    (a n : Bytes) → no_space a ≡ true → no_space n ≡ true → Without newline (a ++ 32 ∷ 32 ∷ n)
line-Without [] n v w = (refl, (refl, no_space-Without n w))
line-Without (c ∷ a) n v w = (ground arith, line-Without a n (ground arith) w)

fields_from-last : (n : Bytes) → no_space n ≡ true → fields_from n ≡ (n, [])
unfolding fields_from
fields_from-last [] w = refl
fields_from-last (c ∷ n) w = ground (arith, fields_from-last n)

append_nil : (a : Bytes) → a ++ [] ≡ a
append_nil [] = refl
append_nil (c ∷ a) = ap (λ t. c ∷ t) (append_nil a)

fields-line :
    (a n : Bytes) → is_word a ≡ true → is_word n ≡ true → fields (a ++ 32 ∷ 32 ∷ n) ≡ a ∷ n ∷ []
unfolding fields fields_from
fields-line [] n v w = cc
fields-line (c ∷ a) [] v w = cc
fields-line (c ∷ a) (d ∷ n) v w =
    rw (fields_from-word (c ∷ a) (32 ∷ 32 ∷ d ∷ n) v, fields_from-last (d ∷ n) w, append_nil a) refl

or_else-word :
    (a b : Bytes)
    → is_word a ≡ true
    → (t : Bool) → or_else (if t then a else []) b ≡ (if t then a else b)
or_else-word [] b w t = cc
or_else-word (c ∷ a) b w true = refl
or_else-word (c ∷ a) b w false = refl

-- The search finds the first checksum for a name in what sha256sum prints, when checksums and
-- names are words.
pub wanted_sum-print_sums :
    (name : Bytes) (es : List Sum)
    → are_words es ≡ true
    → wanted_sum name (print_sums es) ≡ lookup name es
unfolding wanted_sum find_sum fields fields_from split
wanted_sum-print_sums name [] w = refl
wanted_sum-print_sums name (e ∷ es) w =
    rw
      (
        split-first newline (line e) (print_sums es)
            (line-Without e.sum e.name (ground arith) (ground arith)),
        fields-line e.sum e.name (ground arith) (ground arith),
      )
      (or_else-word e.sum (find_sum name (split newline (print_sums es))) (ground arith)
          (eq_bytes e.name name)
        ∙ rw (wanted_sum-print_sums name es (ground arith)) refl)
