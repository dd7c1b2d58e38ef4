-- ===== src/Machine/Gives.antt =====
-- Actions that return a value with a property, and leave the C objects and the Go objects alone.
use zeta_go.Prelude.{◌≡◌, refl, Bool, true, false, if◌then◌else◌}
use zeta_go.Machine.Defs.{Platform, World, Heap, M, pure, ◌>>=◌}
use zeta_go.Machine.Rules.{Returns, Returns-returns, Returns-chain, Returns-mono}
use zeta_go.Machine.Heaps.{At, Keeps}

pub record Gives {e : Platform} {G A : Type 0} (h : Heap) (g : G) (P : A → Type 0) (m : M e G A)
    : Type 0 where
  pub at : (w : World e G) → At h g w → Returns (m w) (λ r. P r.0 × At h g r.1)

module _ {e : Platform} {G A : Type 0} {h : Heap} {g : G} {P : A → Type 0} where
  pub Gives-pure : (a : A) → P a → Gives {e = e} h g P (pure a)
  Gives-pure a x = record { at = λ w b. Returns-returns _ (x, b) }

  -- The test is known in each branch.
  pub Gives-if :
      (b : Bool) (m n : M e G A)
      → (b ≡ true → Gives h g P m)
      → (b ≡ false → Gives h g P n)
      → Gives h g P (if b then m else n)
  Gives-if true m n x y = x refl
  Gives-if false m n x y = y refl

module _ {e : Platform} {G A B : Type 0} {h : Heap} {g : G} {P : B → Type 0} where
  pub Gives-bind :
      {Q : A → Type 0} (m : M e G A) (f : A → M e G B)
      → Gives h g Q m
      → ((a : A) → Q a → Gives h g P (f a))
      → Gives h g P (m >>= f)
  Gives-bind m f k l = record {
    at = λ w a. Returns-chain _ _ (k.at w a) (λ r b. (l r.0 b.0).at r.1 b.1);
  }

  pub Gives-map :
      (m : M e G A) (f : A → B)
      → Keeps h g m
      → ((a : A) → P (f a))
      → Gives h g P (m >>= λ a. pure (f a))
  Gives-map m f k x = record {
    at = λ w a. Returns-chain _ _ (k.at w a) (λ r b. Returns-returns _ (x r.0, b));
  }

module _ {e : Platform} {G A : Type 0} {h : Heap} {g : G} where
  pub Keeps-Gives : (m : M e G A) → Keeps h g m → Gives h g (λ a. Unit {0}) m
  Keeps-Gives m k = record { at = λ w a. Returns-mono _ (λ r b. (tt, b)) (k.at w a) }
