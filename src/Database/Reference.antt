-- ===== src/Database/Reference.antt =====
-- `Exec` against what the engine does with a statement from its prepare to its end.
use zeta_go.Prelude.{ℕ, ◌≡◌, refl, sym, ap, ◌∙◌, Option, none, some, [], arith}
use mathlib.Core.Path.{subst}
use zeta_go.Machine.{
  Bytes, Ptr, Platform, World, Heap, Obj, Creation, created, refused, put, database, message,
  c_string, chain, returns,
}
use zeta_go.Machine.Rules.{Returns, Returns-returns, Returns-chain}
use zeta_go.Machine.Known.{In, In-heap}
use zeta_go.Capi.{free}
use zeta_go.Capi.Known.{
  Made, new, silent, told, free_known, zeta_free_known, go_string_known, zeta_errcode_known,
}
use zeta_go.Errors.{ErrorKind, GoError, zeta, Result, ok, err, error_kind_from_code}
use zeta_go.Errors.Report.{consume_err_msg, text_or_empty}
use zeta_go.Errors.Rules.{put_fresh}
use zeta_go.Database.{prepared}

-- The error of a prepare that the engine refuses, with the message `m` if it gives one.
abbrev pub prepare_failure : (e : Platform) → e.State → ℕ → Option Bytes → GoError
prepare_failure e t d m =
    zeta (record { kind = error_kind_from_code (e.errcode t d); text = text_or_empty m })

-- What comes of a prepare: a statement, or that error.
pub data Prepared {e : Platform} {G : Type 0} (s : e.State) (h : Heap) (g : G) (d : ℕ) (o : Obj)
    (f : ℕ → e.State → Creation × e.State) : Result Ptr → World e G → Type 0 where
  got :
      (n : ℕ) (t : e.State) (w : World e G)
      → f n s ≡ (created, t)
      → h n ≡ none
      → In t (put h n (some o)) g w
      → Prepared s h g d o f (ok (some n)) w
  lost :
      (n : ℕ) (t : e.State) (m : Option Bytes) (w : World e G)
      → f n s ≡ (refused m, t)
      → In t h g w
      → Prepared s h g d o f (err (prepare_failure e t d m)) w

module _ {e : Platform} {G : Type 0} {s : e.State} {h : Heap} {g : G} where
  pub unsaid :
      (k : ErrorKind) (w : World e G)
      → In s h g w
      → Returns
          (consume_err_msg none k w)
          (λ r. (r.0 ≡ zeta (record { kind = k; text = [] })) × In s h g r.1)
  unfolding consume_err_msg
  unsaid k w i = Returns-returns _ (refl, i)

  pub consumed :
      (q : ℕ) (m : Bytes) (k : ErrorKind) (w : World e G)
      → h q ≡ none
      → In s (put h q (some (message m))) g w
      → Returns
          (consume_err_msg (some q) k w)
          (λ r. (r.0 ≡ zeta (record { kind = k; text = m })) × In s h g r.1)
  unfolding consume_err_msg
  consumed q m k w fresh i = Returns-chain _ _ (go_string_known w i q m (ground arith)) (λ r (x, b).
      Returns-chain _ _ (zeta_free_known r.1 b q m (ground arith)) (λ r' c.
        Returns-returns _
          (ap (λ t. zeta (record { kind = k; text = t })) x, In-heap (put_fresh h q _ fresh) c)))

module _ {e : Platform} {G : Type 0} {s : e.State} {h : Heap} {g : G} (d : ℕ)
    (live : h d ≡ some database) where
  pub prepared_known :
      (o : Obj) (f : ℕ → e.State → Creation × e.State) (r : Ptr × Ptr) (w : World e G)
      → Made s h g o f r w
      → Returns (prepared (some d) r w) (λ r'. Prepared s h g d o f r'.0 r'.1)
  unfolding prepared
  prepared_known o f r w (new n t _ q fresh i) = Returns-returns _ (got n t w q fresh i)
  prepared_known o f r w (silent n t _ q i) =
      Returns-chain _ _ (zeta_errcode_known w i d live) (λ r (x, b).
        Returns-chain _ _ (unsaid (error_kind_from_code r.0) r.1 b) (λ r' (y, c).
          Returns-returns _ (
            subst (λ z. Prepared s h g d o f (err z) r'.1)
              (sym (y ∙ ap (λ c. zeta (record { kind = error_kind_from_code c; text = [] })) x))
              (lost n t none r'.1 q c))))
  prepared_known o f r w (told n t m p _ q fresh i) =
      Returns-chain _ _ (zeta_errcode_known w i d (ground (arith, live, fresh))) (λ r (x, b).
        Returns-chain _ _ (consumed p m _ r.1 fresh b) (λ r' (y, c). Returns-returns _ (
          subst (λ z. Prepared s h g d o f (err z) r'.1)
            (sym (y ∙ ap (λ c. zeta (record { kind = error_kind_from_code c; text = m })) x))
            (lost n t (some m) r'.1 q c))))

module _ {e : Platform} {G : Type 0} {s : e.State} {h : Heap} {g : G} (d : ℕ) where
  -- The copy of a text is freed.
  pub free-Prepared :
      (c : ℕ) (o : Obj) (f : ℕ → e.State → Creation × e.State) (r : Result Ptr) (w : World e G)
      → h c ≡ none
      → Prepared s (put h c (some c_string)) g d o f r w
      → Returns {A = Result Ptr × World e G}
          (chain (free (some c) w) (λ r'. returns (r, r'.1)))
          (λ r'. Prepared s h g d o f r'.0 r'.1)
  free-Prepared c o f r w fresh (got n t _ q there i) =
      Returns-chain _ _ (free_known w i c (ground (arith, there))) (λ r b.
        Returns-returns _
          (got n t r.1 q (ground (arith, there)) (In-heap (λ z. ground (arith, there, fresh)) b)))
  free-Prepared c o f r w fresh (lost n t m _ q i) =
      Returns-chain _ _ (free_known w i c (ground arith))
        (λ r b. Returns-returns _ (lost n t m r.1 q (In-heap (put_fresh h c _ fresh) b)))
