-- ===== src/Machine/Heaps.antt =====
-- What a world holds: a heap, point by point, and the Go objects, with every later name unused.
use zeta_go.Prelude.{ℕ, ◌≤◌, ◌≡◌, ◌≢◌, refl, ◌∙◌, sym, Option, none, some, arith}
use mathlib.Core.Path.{subst}
use zeta_go.Machine.Defs.{
  Platform, World, Heap, Obj, M, pure, ◌>>=◌, Outcome, chain, locate, put, the, ask, alloc, store,
  get_go, set_go,
}
use zeta_go.Machine.Rules.{Returns, Returns-returns, Returns-chain}

module _ {e : Platform} {G : Type 0} where
  pub record At (h : Heap) (g : G) (w : World e G) : Type 0 where
    pub heap : (q : ℕ) → w.heap q ≡ h q
    pub go : w.go ≡ g
    pub fresh : (q : ℕ) → w.next ≤ q → w.heap q ≡ none

  pub At-self : (w : World e G) → ((q : ℕ) → w.next ≤ q → w.heap q ≡ none) → At w.heap w.go w
  At-self w f = record { heap = λ q. refl; go = refl; fresh = f }

  pub At-heap :
      {h h' : Heap} {g : G} {w : World e G} → ((q : ℕ) → h q ≡ h' q) → At h g w → At h' g w
  At-heap {h} {h'} p a = record {
    heap = λ q. ground (arith, a.heap q, p q);
    go = a.go;
    fresh = a.fresh;
  }

  pub At-go : {h : Heap} {g g' : G} {w : World e G} → g ≡ g' → At h g w → At h g' w
  At-go p a = record { heap = a.heap; go = a.go ∙ p; fresh = a.fresh }

module _ {e : Platform} {G : Type 0} {h : Heap} {g : G} (w : World e G) (a : At h g w) where
  pub alloc-Returns :
      (o : Obj) → Returns (alloc o w) (λ r. (h r.0 ≡ none) × At (put h r.0 (some o)) g r.1)
  unfolding alloc
  alloc-Returns o = Returns-returns _ (
    ground (arith, a.heap w.next, a.fresh w.next),
    record {
      heap = λ q. ground (arith, a.heap q);
      go = a.go;
      fresh = λ q l. ground (arith, a.fresh q);
    },
  )

  pub store-Returns :
      (p : ℕ) (o : Option Obj) → h p ≢ none → Returns (store p o w) (λ r. At (put h p o) g r.1)
  unfolding store
  store-Returns p o used = Returns-returns _ (record {
    heap = λ q. ground (arith, a.heap q);
    go = a.go;
    fresh = λ q l. ground (arith, a.fresh q, a.heap q, used);
  })

  pub ask-Returns : {A : Type 0} (f : e.State → A × e.State) → Returns (ask f w) (λ r. At h g r.1)
  unfolding ask
  ask-Returns f = Returns-returns _ (record { heap = a.heap; go = a.go; fresh = a.fresh })

  -- The engine's answer, and that a write leaves the engine alone.
  pub ask_answer :
      {A : Type 0} (f : e.State → A × e.State)
      → Returns (ask f w) (λ r. (r.0 ≡ (f w.engine).0) × (r.1.engine ≡ (f w.engine).1) × At h g r.1)
  unfolding ask
  ask_answer f =
      Returns-returns _ (refl, refl, record { heap = a.heap; go = a.go; fresh = a.fresh })

  pub store_answer :
      (p : ℕ) (o : Option Obj)
      → h p ≢ none
      → Returns (store p o w) (λ r. (r.1.engine ≡ w.engine) × At (put h p o) g r.1)
  unfolding store
  store_answer p o used = Returns-returns _ (
    refl,
    record {
      heap = λ q. ground (arith, a.heap q);
      go = a.go;
      fresh = λ q l. ground (arith, a.fresh q, a.heap q, used);
    },
  )

  pub set_go-Returns : (g' : G) → Returns (set_go g' w) (λ r. At h g' r.1)
  unfolding set_go
  set_go-Returns g' = Returns-returns _ (record { heap = a.heap; go = refl; fresh = a.fresh })

-- The same as rules for the first action of a sequence.
module _ {e : Platform} {G : Type 0} {h : Heap} {g : G} (w : World e G) (a : At h g w) where
  module _ {B : Type 0} {P : B × World e G → Type 0} where
    pub the-chain :
        {X : Type 0} (kind : Obj → Option X) (p : ℕ) (o : Obj) (x : X)
        (f : (ℕ × X) × World e G → Outcome (B × World e G))
        → h p ≡ some o
        → kind o ≡ some x
        → Returns (f ((p, x), w)) P
        → Returns (chain (the kind (some p) w) f) P
    unfolding the
    the-chain kind p o x f live right r =
        rw (a.heap p ∙ live, the, locate) (rw (right, the, locate) r)

    pub get_go-chain :
        (f : G × World e G → Outcome (B × World e G))
        → Returns (f (g, w)) P
        → Returns (chain (get_go w) f) P
    unfolding get_go
    get_go-chain f r = subst (λ x. Returns (f (x, w)) P) (sym a.go) r

    pub ask-chain :
        {A : Type 0} (k : e.State → A × e.State) (f : A × World e G → Outcome (B × World e G))
        → ((b : A) (w' : World e G) → At h g w' → Returns (f (b, w')) P)
        → Returns (chain (ask k w) f) P
    ask-chain k f rest = Returns-chain _ f (ask-Returns w a k) (λ r b. rest r.0 r.1 b)

    pub alloc-chain :
        (o : Obj) (f : ℕ × World e G → Outcome (B × World e G))
        → ((n : ℕ) (w' : World e G)
            → h n ≡ none
            → At (put h n (some o)) g w'
            → Returns (f (n, w')) P)
        → Returns (chain (alloc o w) f) P
    alloc-chain o f rest = Returns-chain _ f (alloc-Returns w a o) (λ r b. rest r.0 r.1 b.0 b.1)

    pub store-chain :
        (p : ℕ) (o : Option Obj) (f : Unit {0} × World e G → Outcome (B × World e G))
        → h p ≢ none
        → ((w' : World e G) → At (put h p o) g w' → Returns (f (tt, w')) P)
        → Returns (chain (store p o w) f) P
    store-chain p o f used rest = Returns-chain _ f (store-Returns w a p o used) (λ r b. rest r.1 b)

    pub set_go-chain :
        (g' : G) (f : Unit {0} × World e G → Outcome (B × World e G))
        → ((w' : World e G) → At h g' w' → Returns (f (tt, w')) P)
        → Returns (chain (set_go g' w) f) P
    set_go-chain g' f rest = Returns-chain _ f (set_go-Returns w a g') (λ r b. rest r.1 b)

-- An action that returns and leaves the C objects and the Go objects as they are.
pub record Keeps {e : Platform} {G A : Type 0} (h : Heap) (g : G) (m : M e G A) : Type 0 where
  pub at : (w : World e G) → At h g w → Returns (m w) (λ r. At h g r.1)

module _ {e : Platform} {G A : Type 0} {h : Heap} {g : G} where
  pub Keeps-pure : (a : A) → Keeps {e = e} h g (pure a)
  Keeps-pure a = record { at = λ w b. Returns-returns _ b }

module _ {e : Platform} {G A B : Type 0} {h : Heap} {g : G} where
  pub Keeps-bind :
      (m : M e G A) (f : A → M e G B)
      → Keeps h g m
      → ((a : A) → Keeps h g (f a))
      → Keeps h g (m >>= f)
  Keeps-bind m f k l = record { at = λ w a. Returns-chain _ _ (k.at w a) (λ r b. (l r.0).at r.1 b) }

  pub Keeps-map : (m : M e G A) (f : A → B) → Keeps h g m → Keeps h g (m >>= λ a. pure (f a))
  Keeps-map m f k = Keeps-bind m _ k (λ a. Keeps-pure (f a))
