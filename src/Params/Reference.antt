-- ===== src/Params/Reference.antt =====
-- Binding parameters against a reference: what each Go value is for the engine, and in which order
-- the engine gets them.
use zeta_go.Prelude.{
  ℕ, ◌+◌, ◌≡◌, refl, ap, Bool, Bool-cases, inl, inr, ltb, Option, some, List, [], ◌∷◌, arith,
  if◌then◌else◌,
}
use zeta_go.Prelude.Lists.{length}
use zeta_go.Prelude.Int.{ℤ, pos, eq_ℤ, wrap}
use zeta_go.Machine.{
  Platform, World, M, Heap, Bound, null, bool, int64, int32, double, text, blob, vector, statement,
}
use zeta_go.Machine.Rules.{Returns, Returns-returns, Returns-chain}
use zeta_go.Machine.Known.{In, In-heap}
use zeta_go.Capi.{zeta_ok}
use zeta_go.Capi.Known.{c_string_of_known, free_known, zeta_bind_known, zeta_stmt_errmsg_known}
use zeta_go.Errors.{
  GoError, zeta, bind_parameter, uint_exceeds, uint64_exceeds, unsupported_parameter, Result, ok,
  err, error_kind_from_code,
}
use zeta_go.Errors.Report.{stmt_error, text_or_empty}
use zeta_go.Errors.Rules.{put_fresh}
use zeta_go.Params.{
  Param, nil, go_bool, go_int, go_int32, go_int64, go_uint, go_uint32, go_uint64, go_float32,
  go_float64, go_string, go_bytes, go_floats, other, c_int, bound, bind_one, after_bind, bind_from,
  bind_params, max_int64,
}
use zeta_go.Params.Bounds.{wrap-small}

-- The value that the engine gets for a Go value, or the error.
abbrev pub encoded : {e : Platform} → Param e → Result (Bound e.Float e.Double)
encoded nil = ok null
encoded (go_bool v) = ok (bool (if v then pos 1 else pos 0))
encoded (go_int v) = ok (int64 v)
encoded (go_int32 v) = ok (int32 v)
encoded (go_int64 v) = ok (int64 v)
encoded (go_uint v) = if ltb max_int64 v then err (uint_exceeds v) else ok (int64 (pos v))
encoded (go_uint32 v) = ok (int64 (wrap 64 (pos v)))
encoded (go_uint64 v) = if ltb max_int64 v then err (uint64_exceeds v) else ok (int64 (pos v))
encoded {e} (go_float32 v) = ok (double (e.widen v))
encoded (go_float64 v) = ok (double v)
encoded (go_string v) = ok (text v (c_int (length v)))
encoded (go_bytes v) = ok (blob v (c_int (length v)))
encoded (go_floats v) = ok (vector v (c_int (length v)))
encoded (other t) = err (unsupported_parameter t)

-- The error that a failed call on the statement `p` makes.
abbrev pub stmt_failure : (e : Platform) → e.State → ℕ → ℤ → GoError
stmt_failure e s p rc =
    zeta (record { kind = error_kind_from_code rc; text = text_or_empty (e.stmt_errmsg s p) })

module _ (e : Platform) (p : ℕ) where
  abbrev pub one_bound :
      ℕ
      → Result (Bound e.Float e.Double)
      → e.State
      → (e.State → Result (Unit {0}) × e.State)
      → Result (Unit {0}) × e.State
  one_bound i (err x) s rest = (err (bind_parameter i x), s)
  one_bound i (ok b) s rest =
      let (rc, t) = e.bind s p (c_int i) b in
      if eq_ℤ rc zeta_ok then rest t else (err (stmt_failure e t p rc), t)

  -- The parameters from number `i` on: what is answered, and the engine then.
  abbrev pub all_bound : ℕ → List (Param e) → e.State → Result (Unit {0}) × e.State
  all_bound i [] s = (ok tt, s)
  all_bound i (v ∷ vs) s = one_bound i (encoded v) s (all_bound (i + 1) vs)

-- One parameter: the engine's answer, or the error with the engine untouched.
abbrev Encodes :
    {e : Platform} {G : Type 0}
    → e.State
    → Heap
    → G
    → ℕ
    → ℤ
    → Result (Bound e.Float e.Double)
    → Result ℤ
    → World e G
    → Type 0
Encodes s h g p k (err x) r w = (r ≡ err x) × In s h g w
Encodes {e} s h g p k (ok b) r w = (r ≡ ok (e.bind s p k b).0) × In (e.bind s p k b).1 h g w

module _ {e : Platform} {G : Type 0} {s : e.State} {h : Heap} {g : G} (p : ℕ) (owner : Option ℕ)
    (row : Bool) (live : h p ≡ some (statement owner row)) where
  bound_known :
      (k : ℤ) (v : Bound e.Float e.Double) (w : World e G)
      → In s h g w
      → Returns (bound (some p) k v w) (λ r. Encodes s h g p k (ok v) r.0 r.1)
  unfolding bound
  bound_known k v w i =
      Returns-chain _ _ (zeta_bind_known w i p owner row live k v)
        (λ r (x, b). Returns-returns _ (ap (λ n. ok n) x, b))

  bind_one_known :
      (k : ℤ) (v : Param e) (w : World e G)
      → In s h g w
      → Returns (bind_one (some p) k v w) (λ r. Encodes s h g p k (encoded v) r.0 r.1)
  unfolding bind_one
  bind_one_known k (go_string v) w i =
      Returns-chain _ _ (c_string_of_known w i) (λ r (n, here, new, b).
        Returns-chain _ _ (zeta_bind_known r.1 b p owner row (ground (arith, live)) _ _)
          (λ r' (x, c). rw here (
            Returns-chain _ _ (free_known r'.1 c n (ground arith))
              (λ r'' d. Returns-returns _ (ap (λ n. ok n) x, In-heap (put_fresh h n _ new) d)))))
  bind_one_known k (go_uint v) w i = elim (Bool-cases (ltb max_int64 v)) [
    | inl big ↦ rw (big, bind_one) (Returns-returns _ (refl, i))
    | inr small ↦
        rw (small, wrap-small v (ground (arith, small)), bind_one)
          (bound_known k (int64 (pos v)) w i)
  ]
  bind_one_known k (go_uint64 v) w i = elim (Bool-cases (ltb max_int64 v)) [
    | inl big ↦ rw (big, bind_one) (Returns-returns _ (refl, i))
    | inr small ↦
        rw (small, wrap-small v (ground (arith, small)), bind_one)
          (bound_known k (int64 (pos v)) w i)
  ]
  bind_one_known k (other t) w i = Returns-returns _ (refl, i)
  bind_one_known k _ w i = bound_known k _ w i

-- An action that answers what the reference does, and takes the engine where it does.
abbrev pub Agrees : {e : Platform} {G A : Type 0} → Heap → G → A × e.State → A × World e G → Type 0
Agrees h g x r = (r.0 ≡ x.0) × In x.1 h g r.1

module _ {e : Platform} {G : Type 0} {h : Heap} {g : G} (p : ℕ) (owner : Option ℕ) (row : Bool)
    (live : h p ≡ some (statement owner row)) where
  pub stmt_error_known :
      (s : e.State) (rc : ℤ) (w : World e G)
      → In s h g w
      → Returns (stmt_error (some p) rc w) (Agrees h g (stmt_failure e s p rc, s))
  unfolding stmt_error
  stmt_error_known s rc w i =
      Returns-chain _ _ (zeta_stmt_errmsg_known w i p owner row live) (λ r (x, b).
        Returns-returns _
          (ap (λ m. zeta (record { kind = error_kind_from_code rc; text = text_or_empty m })) x, b))

  code_known :
      (i : ℕ) (rc : ℤ) (b : Bound e.Float e.Double) (s : e.State) (rest : M e G (Result (Unit {0})))
      (f : e.State → Result (Unit {0}) × e.State) (w : World e G)
      → rc ≡ (e.bind s p (c_int i) b).0
      → In (e.bind s p (c_int i) b).1 h g w
      → ((t : e.State) (w' : World e G) → In t h g w' → Returns (rest w') (Agrees h g (f t)))
      → Returns (after_bind (some p) i (ok rc) rest w) (Agrees h g (one_bound e p i (ok b) s f))
  unfolding after_bind
  code_known i rc b s rest f w x j k = elim (Bool-cases (eq_ℤ (e.bind s p (c_int i) b).0 zeta_ok)) [
    | inl good ↦ rw (x, good, after_bind) (k _ w j)
    | inr bad ↦
        rw (x, bad, after_bind)
          (Returns-chain _ _ (stmt_error_known _ _ w j)
            (λ r (y, c). Returns-returns _ (ap (λ z. err z) y, c)))
  ]

  after_bind_known :
      (i : ℕ) (b : Result (Bound e.Float e.Double)) (r : Result ℤ) (s : e.State)
      (rest : M e G (Result (Unit {0}))) (f : e.State → Result (Unit {0}) × e.State) (w : World e G)
      → Encodes s h g p (c_int i) b r w
      → ((t : e.State) (w' : World e G) → In t h g w' → Returns (rest w') (Agrees h g (f t)))
      → Returns (after_bind (some p) i r rest w) (Agrees h g (one_bound e p i b s f))
  unfolding after_bind
  after_bind_known i (err x) r s rest f w (q, j) k =
      rw (q, after_bind) (Returns-returns _ (refl, j))
  after_bind_known i (ok b) (ok rc) s rest f w (q, j) k =
      code_known i rc b s rest f w (ground (arith, q)) j k
  after_bind_known i (ok b) (err x) s rest f w (q, j) k = cc

  bind_from_known :
      (i : ℕ) (ps : List (Param e)) (s : e.State) (w : World e G)
      → In s h g w
      → Returns (bind_from (some p) i ps w) (Agrees h g (all_bound e p i ps s))
  unfolding bind_from
  bind_from_known i [] s w j = Returns-returns _ (refl, j)
  bind_from_known i (v ∷ ps) s w j =
      Returns-chain _ _ (bind_one_known p owner row live (c_int i) v w j) (λ r b.
        after_bind_known i (encoded v) r.0 s _ (all_bound e p (i + 1) ps) r.1 b
          (λ t w' k. bind_from_known (i + 1) ps t w' k))

  -- `bindParams` on a live statement binds each Go value as the value that it is for the engine, in
  -- order from number 1, up to the first that the code or the engine refuses, answers that error or
  -- none, and leaves the C objects as they were.
  pub bind_params-Agrees :
      (ps : List (Param e)) (s : e.State) (w : World e G)
      → In s h g w
      → Returns (bind_params (some p) ps w) (Agrees h g (all_bound e p 1 ps s))
  unfolding bind_params
  bind_params-Agrees ps s w j = bind_from_known 1 ps s w j
