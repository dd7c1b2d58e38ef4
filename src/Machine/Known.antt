-- ===== src/Machine/Known.antt =====
-- Actions when the engine's state is known too.
use zeta_go.Prelude.{ℕ, ◌≡◌, ◌≢◌, refl, ap, ◌∙◌, Option, none, some, arith}
use zeta_go.Machine.Defs.{Platform, World, Heap, Obj, put, ask, alloc, store, set_go}
use zeta_go.Machine.Rules.{Returns, Returns-returns, Returns-mono}
use zeta_go.Machine.Heaps.{At, At-heap, At-go, ask_answer, store_answer}

-- A world with the engine in the state `s`.
pub record In {e : Platform} {G : Type 0} (s : e.State) (h : Heap) (g : G) (w : World e G)
    : Type 0 where
  pub at : At h g w
  pub engine : w.engine ≡ s

module _ {e : Platform} {G : Type 0} {s : e.State} {h h' : Heap} {g : G} {w : World e G} where
  pub In-heap : ((q : ℕ) → h q ≡ h' q) → In s h g w → In s h' g w
  In-heap p i = record { at = At-heap p i.at; engine = i.engine }

module _ {e : Platform} {G : Type 0} {s : e.State} {h : Heap} {g g' : G} {w : World e G} where
  pub In-go : g ≡ g' → In s h g w → In s h g' w
  In-go p i = record { at = At-go p i.at; engine = i.engine }

module _ {e : Platform} {G : Type 0} {s : e.State} {h : Heap} {g : G} (w : World e G)
    (i : In s h g w) where
  pub ask_known :
      {A : Type 0} (k : e.State → A × e.State)
      → Returns (ask k w) (λ r. (r.0 ≡ (k s).0) × In (k s).1 h g r.1)
  ask_known k =
      Returns-mono _
        (λ r (x, y, a). (
          x ∙ ap (λ t. (k t).0) i.engine,
          record { at = a; engine = y ∙ ap (λ t. (k t).1) i.engine },
        ))
        (ask_answer w i.at k)

  -- The next name stays.
  pub ask_named :
      {A : Type 0} (k : e.State → A × e.State)
      → Returns (ask k w) (λ r. (r.0 ≡ (k s).0) × (r.1.next ≡ w.next) × In (k s).1 h g r.1)
  unfolding ask
  ask_named k = Returns-returns _ (
    ap (λ t. (k t).0) i.engine,
    refl,
    record {
      at = record { heap = i.at.heap; go = i.at.go; fresh = i.at.fresh };
      engine = ap (λ t. (k t).1) i.engine;
    },
  )

  pub alloc_known :
      (o : Obj)
      → Returns (alloc o w) (λ r. (r.0 ≡ w.next) × (h r.0 ≡ none) × In s (put h r.0 (some o)) g r.1)
  unfolding alloc
  alloc_known o = Returns-returns _ (
    refl,
    ground (arith, i.at.heap w.next, i.at.fresh w.next),
    record {
      at = record {
        heap = λ q. ground (arith, i.at.heap q);
        go = i.at.go;
        fresh = λ q l. ground (arith, i.at.fresh q);
      };
      engine = i.engine;
    },
  )

  pub store_known :
      (p : ℕ) (o : Option Obj) → h p ≢ none → Returns (store p o w) (λ r. In s (put h p o) g r.1)
  store_known p o used =
      Returns-mono _ (λ r (x, a). record { at = a; engine = x ∙ i.engine })
        (store_answer w i.at p o used)

  pub set_go_known : (g' : G) → Returns (set_go g' w) (λ r. In s h g' r.1)
  unfolding set_go
  set_go_known g' = Returns-returns _ (record {
    at = record { heap = i.at.heap; go = refl; fresh = i.at.fresh };
    engine = i.engine;
  })
