-- ===== src/Params/Rules.antt =====
-- Binding parameters to a live statement returns, and leaves every C object as it was.
use zeta_go.Prelude.{
  ℕ, ◌≡◌, Bool, Bool-cases, inl, inr, ltb, Option, some, List, [], ◌∷◌, ◌+◌, arith,
}
use zeta_go.Prelude.Int.{ℤ, eq_ℤ}
use zeta_go.Machine.{Platform, World, M, Heap, Bound, statement}
use zeta_go.Machine.Rules.{Returns, Returns-returns, Returns-chain}
use zeta_go.Machine.Heaps.{At, At-heap}
use zeta_go.Capi.{zeta_ok}
use zeta_go.Capi.Rules.{c_string_of-Returns, free-Returns, zeta_bind-Returns}
use zeta_go.Errors.{Result, ok, err}
use zeta_go.Errors.Rules.{put_fresh, stmt_error-Returns}
use zeta_go.Params.{
  Param, go_uint, go_uint64, go_string, other, bound, bind_one, bind_from, after_bind, bind_params,
  max_int64,
}

module _ {e : Platform} {G : Type 0} {h : Heap} {g : G} (p : ℕ) (owner : Option ℕ) (row : Bool)
    (live : h p ≡ some (statement owner row)) where
  bound-Returns :
      (i : ℤ) (v : Bound e.Float e.Double) (w : World e G)
      → At h g w
      → Returns (bound (some p) i v w) (λ r. At h g r.1)
  unfolding bound
  bound-Returns i v w a =
      Returns-chain _ _ (zeta_bind-Returns w a p owner row live i v) (λ r b. Returns-returns _ b)

  bind_one-Returns :
      (i : ℤ) (v : Param e) (w : World e G)
      → At h g w
      → Returns (bind_one (some p) i v w) (λ r. At h g r.1)
  unfolding bind_one
  bind_one-Returns i (go_string v) w a =
      Returns-chain _ _ (c_string_of-Returns w a) (λ r (n, here, new, b).
        Returns-chain _ _ (zeta_bind-Returns r.1 b p owner row (ground (arith, live)) _ _) (λ r' c.
          rw here (
            Returns-chain _ _ (free-Returns r'.1 c n (ground arith))
              (λ r'' d. Returns-returns _ (At-heap (put_fresh h n _ new) d)))))
  bind_one-Returns i (go_uint v) w a = elim (Bool-cases (ltb max_int64 v)) [
    | inl big ↦ rw (big, bind_one) (Returns-returns _ a)
    | inr small ↦ rw (small, bind_one) (bound-Returns _ _ w a)
  ]
  bind_one-Returns i (go_uint64 v) w a = elim (Bool-cases (ltb max_int64 v)) [
    | inl big ↦ rw (big, bind_one) (Returns-returns _ a)
    | inr small ↦ rw (small, bind_one) (bound-Returns _ _ w a)
  ]
  bind_one-Returns i (other t) w a = Returns-returns _ a
  bind_one-Returns i _ w a = bound-Returns _ _ w a

  after_bind-Returns :
      (i : ℕ) (r : Result ℤ) (rest : M e G (Result (Unit {0}))) (w : World e G)
      → At h g w
      → ((w' : World e G) → At h g w' → Returns (rest w') (λ r. At h g r.1))
      → Returns (after_bind (some p) i r rest w) (λ r. At h g r.1)
  unfolding after_bind
  after_bind-Returns i (err x) rest w a k = Returns-returns _ a
  after_bind-Returns i (ok rc) rest w a k = elim (Bool-cases (eq_ℤ rc zeta_ok)) [
    | inl good ↦ rw (good, after_bind) (k w a)
    | inr bad ↦
        rw (bad, after_bind)
          (Returns-chain _ _ (stmt_error-Returns w a p owner row rc live)
            (λ r b. Returns-returns _ b))
  ]

  bind_from-Returns :
      (i : ℕ) (ps : List (Param e)) (w : World e G)
      → At h g w
      → Returns (bind_from (some p) i ps w) (λ r. At h g r.1)
  unfolding bind_from
  bind_from-Returns i [] w a = Returns-returns _ a
  bind_from-Returns i (v ∷ ps) w a =
      Returns-chain _ _ (bind_one-Returns _ v w a)
        (λ r b. after_bind-Returns i r.0 _ r.1 b (λ w' c. bind_from-Returns (i + 1) ps w' c))

  -- On a live statement `bindParams` returns, whatever the parameters and the engine's answers, and
  -- the C objects are what they were: the copies of texts are freed.
  pub bind_params-Returns :
      (ps : List (Param e)) (w : World e G)
      → At h g w
      → Returns (bind_params (some p) ps w) (λ r. At h g r.1)
  unfolding bind_params
  bind_params-Returns ps w a = bind_from-Returns 1 ps w a
