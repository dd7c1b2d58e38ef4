-- ===== src/Machine/Stays.antt =====
-- Actions that only look: the engine, the C objects and the Go objects stay as they are.
use zeta_go.Prelude.{◌≡◌, refl, ◌∙◌, Bool, true, false, if◌then◌else◌}
use zeta_go.Machine.Defs.{Platform, World, Heap, M, pure, ◌>>=◌}
use zeta_go.Machine.Rules.{Returns, Returns-returns, Returns-chain, Returns-mono}
use zeta_go.Machine.Heaps.{At, Keeps}

pub record Stays {e : Platform} {G A : Type 0} (h : Heap) (g : G) (m : M e G A) : Type 0 where
  pub at : (w : World e G) → At h g w → Returns (m w) (λ r. (r.1.engine ≡ w.engine) × At h g r.1)

module _ {e : Platform} {G A : Type 0} {h : Heap} {g : G} where
  pub Stays-Keeps : (m : M e G A) → Stays h g m → Keeps h g m
  Stays-Keeps m k = record { at = λ w a. Returns-mono _ (λ r b. b.1) (k.at w a) }

  pub Stays-pure : (a : A) → Stays {e = e} h g (pure a)
  Stays-pure a = record { at = λ w b. Returns-returns _ (refl, b) }

  pub Stays-if :
      (b : Bool) (m n : M e G A) → Stays h g m → Stays h g n → Stays h g (if b then m else n)
  Stays-if true m n k l = k
  Stays-if false m n k l = l

module _ {e : Platform} {G A B : Type 0} {h : Heap} {g : G} where
  pub Stays-bind :
      (m : M e G A) (f : A → M e G B)
      → Stays h g m
      → ((a : A) → Stays h g (f a))
      → Stays h g (m >>= f)
  Stays-bind m f k l = record {
    at = λ w a.
        Returns-chain _ _ (k.at w a)
          (λ r b. Returns-mono _ (λ r' c. (c.0 ∙ b.0, c.1)) ((l r.0).at r.1 b.1));
  }

  pub Stays-map : (m : M e G A) (f : A → B) → Stays h g m → Stays h g (m >>= λ a. pure (f a))
  Stays-map m f k = Stays-bind m _ k (λ a. Stays-pure (f a))
