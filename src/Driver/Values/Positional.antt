-- ===== src/Driver/Values/Positional.antt =====
-- `namedToValues`: positional arguments pass, named ones do not.
use zeta_go.Prelude.{ℕ, ◌≡◌, ◌⊎◌, inl, inr, refl, List, [], ◌∷◌, map}
use zeta_go.Prelude.Lists.{All}
use zeta_go.Machine.{Bytes, Platform}
use zeta_go.Errors.{named_parameter, ok, err}
use zeta_go.Driver.Values.{NamedValue, named_to_values}

-- Some argument has a name.
pub data HasName {e : Platform} : List (NamedValue e) → Type 0 where
  here :
      (a : NamedValue e) (rest : List (NamedValue e)) (n : ℕ) (m : Bytes)
      → a.name ≡ n ∷ m
      → HasName (a ∷ rest)
  later : (a : NamedValue e) (rest : List (NamedValue e)) → HasName rest → HasName (a ∷ rest)

named_or_not : (n : Bytes) → (n ≡ []) ⊎ ((c : ℕ) × (m : Bytes) × (n ≡ c ∷ m))
named_or_not [] = inl refl
named_or_not (c ∷ m) = inr (c, m, refl)

-- Either no argument has a name and `namedToValues` gives their values in order, or one has and the
-- answer is an error.
pub named_to_values-HasName :
    {e : Platform} (rest : List (NamedValue e))
    → (All (λ (a : NamedValue e). a.name ≡ []) rest
        × (named_to_values rest ≡ ok (map (λ (a : NamedValue e). a.value) rest)))
      ⊎ (HasName rest × (named_to_values rest ≡ err named_parameter))
unfolding named_to_values
named_to_values-HasName [] = inl (tt, refl)
named_to_values-HasName (a ∷ rest) = elim (named_or_not a.name) [
  | inr (c, m, q) ↦ inr (here a rest c m q, rw q refl)
  | inl q ↦ elim (named_to_values-HasName rest) [
    | inl (all, r) ↦ inl ((q, all), rw (q, r) refl)
    | inr (named, r) ↦ inr (later a rest named, rw (q, r) refl)
  ]
]
