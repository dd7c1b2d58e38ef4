-- ===== src/Machine/Tells.antt =====
-- Actions that answer a known value, and leave the engine, the C objects and the Go objects alone.
use zeta_go.Prelude.{◌≡◌, refl, Bool, true, false, if◌then◌else◌}
use zeta_go.Machine.Defs.{Platform, World, Heap, M, pure, ◌>>=◌}
use zeta_go.Machine.Rules.{Returns, Returns-returns, Returns-chain}
use zeta_go.Machine.Known.{In}

pub record Tells {e : Platform} {G A : Type 0} (s : e.State) (h : Heap) (g : G) (x : A)
    (m : M e G A) : Type 0 where
  pub at : (w : World e G) → In s h g w → Returns (m w) (λ r. (r.0 ≡ x) × In s h g r.1)

module _ {e : Platform} {G A : Type 0} {s : e.State} {h : Heap} {g : G} where
  pub Tells-pure : (x : A) → Tells {e = e} s h g x (pure x)
  Tells-pure x = record { at = λ w i. Returns-returns _ (refl, i) }

  pub Tells-if :
      (b : Bool) (m n : M e G A) (x y : A)
      → Tells s h g x m
      → Tells s h g y n
      → Tells s h g (if b then x else y) (if b then m else n)
  Tells-if true m n x y k l = k
  Tells-if false m n x y k l = l

module _ {e : Platform} {G A B : Type 0} {s : e.State} {h : Heap} {g : G} where
  pub Tells-bind :
      (m : M e G A) (f : A → M e G B) (x : A) (y : B)
      → Tells s h g x m
      → Tells s h g y (f x)
      → Tells s h g y (m >>= f)
  Tells-bind m f x y k l = record {
    at = λ w i. Returns-chain _ _ (k.at w i) (λ r (q, j). rw q (l.at r.1 j));
  }

  pub Tells-map :
      (m : M e G A) (f : A → B) (x : A)
      → Tells s h g x m
      → Tells s h g (f x) (m >>= λ a. pure (f a))
  Tells-map m f x k = Tells-bind m (λ a. pure (f a)) x (f x) k (Tells-pure (f x))
