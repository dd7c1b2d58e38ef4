-- ===== src/Columns/Bounds.antt =====
-- A column scanned into an *int32.
use zeta_go.Prelude.{
  ℕ, ◌-◌, ◌*◌, ◌%◌, if◌then◌else◌, ◌^◌, ◌<◌, ◌≡◌, ◌≢◌, refl, ap, ◌∙◌, ◌⊎◌, inl, inr, Bool,
  Bool-cases, true, false, ltb, some, Option, arith,
}
use mathlib.Core.Path.{subst}
use zeta_go.Prelude.Int.{ℤ, pos, negsuc, eq_ℤ, signed, wrap, InRange}
use zeta_go.Machine.{Platform, World, Heap, as_row, statement}
use zeta_go.Machine.Rules.{Returns, Returns-returns, Returns-chain}
use zeta_go.Machine.Heaps.{At, the-chain, ask_answer}
use zeta_go.Errors.{ok}
use zeta_go.Capi.{column_read}
use zeta_go.Columns.{
  int64_at, type_null, to_int32, an_int32, scan_int, scan_typed, scan_column, column_type_at,
}

wrap-InRange : (n : ℤ) → InRange 32 n → wrap 32 n ≡ n
unfolding wrap
wrap-InRange (pos n) small = ground arith
wrap-InRange (negsuc n) small = ground arith

-- What a conversion to 32 bits does: it keeps the number, or the number was out of range.
abbrev pub Narrows : ℤ → ℤ → Type 0
Narrows n m = (InRange 32 n × (m ≡ n)) ⊎ (¬ InRange 32 n × (m ≢ n))

residue-InRange :
    (m : ℕ) (b : Bool)
    → ltb (m * 2) (2 ^ 32) ≡ b
    → m < 2 ^ 32
    → InRange 32 (if b then pos m else negsuc (2 ^ 32 - m - 1))
residue-InRange m true low small = ground arith
residue-InRange m false high small = ground arith

signed-InRange : (n : ℕ) → InRange 32 (signed 32 n)
signed-InRange n = residue-InRange (n % 2 ^ 32) (ltb (n % 2 ^ 32 * 2) (2 ^ 32)) refl (omega arith)

wrap_within : (n : ℤ) → InRange 32 (wrap 32 n)
unfolding wrap
wrap_within (pos n) = signed-InRange n
wrap_within (negsuc n) = signed-InRange (2 ^ 32 - 1 - n % 2 ^ 32)

in_range : (n : ℤ) → InRange 32 n ⊎ ¬ InRange 32 n
in_range (pos n) = elim (Bool-cases (ltb (n * 2) (2 ^ 32))) [
  | inl small ↦ inl (ground arith)
  | inr big ↦ inr (λ small. ground arith)
]
in_range (negsuc n) = elim (Bool-cases (ltb (n * 2) (2 ^ 32))) [
  | inl small ↦ inl (ground arith)
  | inr big ↦ inr (λ small. ground arith)
]

wrap-Narrows : (n : ℤ) → Narrows n (wrap 32 n)
wrap-Narrows n = elim (in_range n) [
  | inl small ↦ inl (small, wrap-InRange n small)
  | inr big ↦ inr (big, λ q. big (subst (λ m. InRange 32 m) q (wrap_within n)))
]

module _ {e : Platform} {G : Type 0} {h : Heap} {g : G} (p : ℕ) (owner : Option ℕ)
    (live : h p ≡ some (statement owner true)) (w : World e G) (a : At h g w) where
  pub column_read_answer :
      {A : Type 0} (f : e.State → ℕ → A)
      → Returns
          (column_read f (some p) w)
          (λ r. (r.0 ≡ f w.engine p) × (r.1.engine ≡ w.engine) × At h g r.1)
  unfolding column_read
  column_read_answer f =
      the-chain w a as_row p (statement owner true) tt _ live refl (ask_answer w a _)

-- A column that is not NULL, scanned into an *int32 at a row of a live statement: `scanColumn`
-- answers no error; a value in the range of int32 is stored as it is, and one out of the range is
-- stored as another number.
pub scan_column-to_int32 :
    {e : Platform} {G : Type 0} {h : Heap} {g : G} (p : ℕ) (owner : Option ℕ) (i : ℤ)
    (w : World e G)
    → h p ≡ some (statement owner true)
    → At h g w
    → eq_ℤ (e.column_type w.engine p i) type_null ≡ false
    → Returns
        (scan_column (some p) i to_int32 w)
        (λ r. (m : ℤ) × (r.0 ≡ ok (an_int32 m)) × Narrows (e.column_int64 w.engine p i) m)
unfolding scan_column column_type_at scan_typed scan_int int64_at
scan_column-to_int32 {e} {h = h} {g = g} p owner i w live a filled =
    Returns-chain _ _ (column_read_answer p owner live w a (λ s q. e.column_type s q i)) (λ r b.
      rw (ap (λ t. eq_ℤ t type_null) b.0 ∙ filled) (
        Returns-chain _ _ (column_read_answer p owner live r.1 b.2 (λ s q. e.column_int64 s q i))
          (λ r' c. Returns-returns _ (
            wrap 32 r'.0,
            refl,
            subst (λ n. Narrows n (wrap 32 r'.0)) (c.0 ∙ ap (λ s. e.column_int64 s p i) b.1)
                (wrap-Narrows r'.0),
          ))))
