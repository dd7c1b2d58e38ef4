-- ===== src/Schema/Parse.antt =====
-- The text of a table, as zeta.h describes it, and `parseTableInfo` on it.
use zeta_go.Prelude.{ℕ, ◌==◌, ◌≡◌, refl, ap, ◌∙◌, Bool, true, false, some, List, [], ◌∷◌, ◌++◌, map}
use zeta_go.Prelude.Lists.{All}
use zeta_go.Machine.{Bytes}
use zeta_go.Schema.{
  ColumnInfo, TableInfo, newline, tab, one, is_empty, is_one, split, columns_of, table_of,
  parse_table_info, table_names,
}
use zeta_go.Schema.Text.{Without, ended_by, split-first, split-last, split-trim_right}

-- '1' or '0'
abbrev flag : Bool → ℕ
flag true = one
flag false = 48

abbrev flags_of : ColumnInfo → Bytes
flags_of c = flag c.nullable ∷ tab ∷ flag c.is_primary_key ∷ []

abbrev line_of : ColumnInfo → Bytes
line_of c = c.name ++ tab ∷ (c.sql_type ++ tab ∷ flags_of c)

-- What zeta.h says of `zeta_table_info`: the name, and a line for each column.
unfoldable pub print_table : TableInfo → Bytes
print_table t = ended_by newline t.name (map line_of t.columns)

-- Names and types without a tab or a newline.
pub record IsPlain (c : ColumnInfo) : Type 0 where
  pub name_tab : Without tab c.name
  pub name_line : Without newline c.name
  pub type_tab : Without tab c.sql_type
  pub type_line : Without newline c.sql_type

Without-append : (c : ℕ) (a b : Bytes) → Without c a → Without c b → Without c (a ++ b)
Without-append c [] b h k = k
Without-append c (x ∷ a) b (other, h) k = (other, Without-append c a b h k)

flag-line : (b : Bool) → (flag b == newline) ≡ false
flag-line true = refl
flag-line false = refl

flag-tab : (b : Bool) → (flag b == tab) ≡ false
flag-tab true = refl
flag-tab false = refl

is_one-flag : (b : Bool) → is_one (flag b ∷ []) ≡ b
is_one-flag true = refl
is_one-flag false = refl

line_of-Without : (c : ColumnInfo) → IsPlain c → Without newline (line_of c)
line_of-Without c p =
    Without-append newline c.name (tab ∷ (c.sql_type ++ tab ∷ flags_of c)) p.name_line (
      refl,
      Without-append newline c.sql_type (tab ∷ flags_of c) p.type_line
          (refl, (flag-line c.nullable, (refl, (flag-line c.is_primary_key, tt)))),
    )

line_of-full : (c : ColumnInfo) → is_empty (line_of c) ≡ false
line_of-full c = append_full c.name tab (c.sql_type ++ tab ∷ flags_of c)
  where
    append_full : (n : Bytes) (x : ℕ) (s : Bytes) → is_empty (n ++ x ∷ s) ≡ false
    append_full [] x s = refl
    append_full (y ∷ n) x s = refl

split-line_of :
    (c : ColumnInfo)
    → IsPlain c
    → split tab (line_of c)
      ≡ c.name ∷ c.sql_type ∷ (flag c.nullable ∷ []) ∷ (flag c.is_primary_key ∷ []) ∷ []
split-line_of c p =
    split-first tab c.name (c.sql_type ++ tab ∷ flags_of c) p.name_tab
    ∙ ap (λ t. c.name ∷ t)
        (split-first tab c.sql_type (flags_of c) p.type_tab
          ∙ ap (λ t. c.sql_type ∷ t)
              (split-first tab (flag c.nullable ∷ []) (flag c.is_primary_key ∷ [])
                  (flag-tab c.nullable, tt)
                ∙ ap (λ t. (flag c.nullable ∷ []) ∷ t)
                    (split-last tab (flag c.is_primary_key ∷ []) (flag-tab c.is_primary_key, tt))))

columns_of-lines : (cs : List ColumnInfo) → All IsPlain cs → columns_of (map line_of cs) ≡ cs
unfolding columns_of
columns_of-lines [] h = refl
columns_of-lines (c ∷ cs) (p, h) =
    rw
      (
        columns_of-lines cs h,
        line_of-full c,
        split-line_of c p,
        is_one-flag c.nullable,
        is_one-flag c.is_primary_key,
      )
      refl

lines-Without : (cs : List ColumnInfo) → All IsPlain cs → All (Without newline) (map line_of cs)
lines-Without [] h = tt
lines-Without (c ∷ cs) (p, h) = (line_of-Without c p, lines-Without cs h)

lines-full : (cs : List ColumnInfo) → All (λ r. is_empty r ≡ false) (map line_of cs)
lines-full [] = tt
lines-full (c ∷ cs) = (line_of-full c, lines-full cs)

-- A table whose name has no newline, and whose columns' names and types have neither a tab nor a
-- newline, is read back from the text that zeta.h describes.
pub parse_table_info-print_table :
    (t : TableInfo)
    → Without newline t.name
    → All IsPlain t.columns
    → parse_table_info (print_table t) ≡ some t
unfolding parse_table_info print_table
parse_table_info-print_table t h hs =
    ap table_of (
      split-trim_right newline t.name (map line_of t.columns) h (lines-Without t.columns hs)
        (lines-full t.columns))
    ∙ ap (λ (cs : List ColumnInfo). some (record { name = t.name; columns = cs }))
        (columns_of-lines t.columns hs)

-- Only the empty text is split into one empty line.
split-full :
    (s n : Bytes) (ns : List Bytes)
    → is_empty n ≡ false
    → split newline s ≡ n ∷ ns
    → is_empty s ≡ false
unfolding split
split-full [] n ns f q = cc
split-full (x ∷ s) n ns f q = refl

-- The names of one table or more come back in order from the text with one name in a line, if none
-- has a newline and none is empty.
pub table_names-ended_by :
    (n : Bytes) (ns : List Bytes)
    → All (Without newline) (n ∷ ns)
    → All (λ r. is_empty r ≡ false) (n ∷ ns)
    → table_names (ended_by newline n ns) ≡ n ∷ ns
unfolding table_names
table_names-ended_by n ns (h, hs) (f, fs) =
    let q = split-trim_right newline n ns h hs fs in rw (split-full _ n ns f q) q
