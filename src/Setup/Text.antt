-- ===== src/Setup/Text.antt =====
-- The functions on text that the installer uses, on ASCII: strings.Fields, strings.TrimSpace,
-- hex.EncodeToString, and the search in SHA256SUMS.
use zeta_go.Prelude.{
  ℕ, ◌+◌, ◌-◌, ◌/◌, ◌%◌, ◌==◌, leb, ltb, Bool, ◌&&◌, ◌||◌, List, [], ◌∷◌, if◌then◌else◌,
}
use zeta_go.Prelude.Lists.{eq_bytes}
use zeta_go.Machine.{Bytes}
use zeta_go.Schema.{is_empty, newline, split}

-- Tab, newline, vertical tab, form feed, carriage return and space.
abbrev pub is_space : ℕ → Bool
is_space c = (leb 9 c && leb c 13) || c == 32

abbrev pub add_field : Bytes → List Bytes → List Bytes
add_field w ws = if is_empty w then ws else w ∷ ws

-- The field that is being read, and those after it.
unfoldable pub fields_from : Bytes → Bytes × List Bytes
fields_from [] = ([], [])
fields_from (c ∷ s) =
    let (w, ws) = fields_from s in if is_space c then ([], add_field w ws) else (c ∷ w, ws)

-- `strings.Fields`
unfoldable pub fields : Bytes → List Bytes
unfolding fields_from
fields s = let (w, ws) = fields_from s in add_field w ws

unfoldable pub trim_left : Bytes → Bytes
trim_left [] = []
trim_left (c ∷ s) = let rest = trim_left s in if is_space c then rest else c ∷ s

unfoldable pub trim_end : Bytes → Bytes
trim_end [] = []
trim_end (c ∷ s) = let rest = trim_end s in if is_empty rest && is_space c then [] else c ∷ rest

-- `strings.TrimSpace`
unfoldable pub trim_space : Bytes → Bytes
unfolding trim_left trim_end
trim_space s = trim_end (trim_left s)

abbrev hex_digit : ℕ → ℕ
hex_digit n = if ltb n 10 then b'0' + n else b'a' + n - 10

-- `hex.EncodeToString`
unfoldable pub hex : Bytes → Bytes
hex [] = []
hex (c ∷ s) = hex_digit (c / 16 % 16) ∷ hex_digit (c % 16) ∷ hex s

-- The checksum that a line of SHA256SUMS gives for a file, or the empty text.
abbrev pub sum_of : Bytes → List Bytes → Bytes
sum_of name (sum ∷ file ∷ []) = if eq_bytes file name then sum else []
sum_of name _ = []

abbrev pub or_else : Bytes → Bytes → Bytes
or_else [] b = b
or_else (c ∷ a) b = c ∷ a

-- The loop over the lines: the first checksum, or the empty text.
unfoldable pub find_sum : Bytes → List Bytes → Bytes
unfolding fields
find_sum name [] = []
find_sum name (line ∷ lines) =
    let rest = find_sum name lines in or_else (sum_of name (fields line)) rest

-- What `verifySha256` looks for in the text of SHA256SUMS.
unfoldable pub wanted_sum : Bytes → Bytes → Bytes
unfolding find_sum split
wanted_sum name sums = find_sum name (split newline sums)
