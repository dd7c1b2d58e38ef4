-- ===== src/Machine/Rules.antt =====
-- Rules for total correctness: an action returns, and what it returns satisfies a predicate.
use zeta_go.Prelude.{◌≡◌, refl}
use zeta_go.Machine.Defs.{Outcome, returns, undefined, blocks, fatal, exhausted, chain}

pub record Returns {A : Type 0} (o : Outcome A) (P : A → Type 0) : Type 0 where
  pub result : A
  pub equation : o ≡ returns result
  pub holds : P result

module _ {A : Type 0} {P : A → Type 0} where
  pub Returns-returns : (a : A) → P a → Returns (returns a) P
  Returns-returns a h = record { result = a; equation = refl; holds = h }

module _ {A B : Type 0} {Q : A → Type 0} {P : B → Type 0} where
  pub Returns-chain :
      (o : Outcome A) (f : A → Outcome B)
      → Returns o Q
      → ((a : A) → Q a → Returns (f a) P)
      → Returns (chain o f) P
  Returns-chain o f r next = rw r.equation (next r.result r.holds)

module _ {A : Type 0} {P Q : A → Type 0} where
  pub Returns-mono : (o : Outcome A) → ((a : A) → P a → Q a) → Returns o P → Returns o Q
  Returns-mono o f r = record {
    result = r.result;
    equation = r.equation;
    holds = f r.result r.holds;
  }

module _ {A B C : Type 0} {Q : B → Type 0} {P : C → Type 0} where
  -- What is known of two actions in a row is known before a third that also sees the first's result.
  pub Returns-after :
      (o : Outcome A) (f : A → Outcome B) (g : A → B → Outcome C)
      → Returns (chain o f) Q
      → ((a : A) (b : B) → Q b → Returns (g a b) P)
      → Returns (chain o (λ a. chain (f a) (g a))) P
  Returns-after (returns a) f g r next = Returns-chain (f a) (g a) r (next a)
  Returns-after undefined f g r next = cc r.equation
  Returns-after blocks f g r next = cc r.equation
  Returns-after fatal f g r next = cc r.equation
  Returns-after exhausted f g r next = cc r.equation

module _ {A B C : Type 0} {P : C → Type 0} where
  -- Actions in a row may be taken from the left or from the right.
  pub Returns-assoc :
      (o : Outcome A) (f : A → Outcome B) (g : B → Outcome C)
      → Returns (chain o (λ a. chain (f a) g)) P
      → Returns (chain (chain o f) g) P
  Returns-assoc (returns a) f g r = r
  Returns-assoc undefined f g r = cc r.equation
  Returns-assoc blocks f g r = cc r.equation
  Returns-assoc fatal f g r = cc r.equation
  Returns-assoc exhausted f g r = cc r.equation
