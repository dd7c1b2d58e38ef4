-- ===== src/Capi/Known.antt =====
-- What the functions of zeta.h answer when the engine's state is known.
use zeta_go.Prelude.{ℕ, ◌≡◌, refl, sym, ap, ◌∙◌, false, Option, none, some}
use zeta_go.Prelude.Int.{ℤ}
use mathlib.Core.Path.{subst}
use zeta_go.Machine.{
  Bytes, Ptr, Platform, World, Heap, Obj, Creation, created, refused, Bound, put, database,
  transaction, c_string, statement, message, as_database, as_transaction, as_statement, as_c_string,
  as_message,
}
use zeta_go.Machine.Rules.{Returns, Returns-returns, Returns-chain}
use zeta_go.Machine.Heaps.{the-chain}
use zeta_go.Machine.Known.{In, ask_known, ask_named, alloc_known, store_known}
use zeta_go.Capi.Defs.{
  until_nul, c_string_of, free, zeta_free, go_string, settle, make, message_of, zeta_errcode,
  zeta_prepare, zeta_txn_prepare, zeta_bind, zeta_finalize, zeta_reset, zeta_stmt_errmsg,
}

-- What a function that makes an object gives: its handle, or no handle and perhaps an error string.
pub data Made {e : Platform} {G : Type 0} (s : e.State) (h : Heap) (g : G) (o : Obj)
    (f : ℕ → e.State → Creation × e.State) : Ptr × Ptr → World e G → Type 0 where
  new :
      (n : ℕ) (t : e.State) (w : World e G)
      → f n s ≡ (created, t)
      → h n ≡ none
      → In t (put h n (some o)) g w
      → Made s h g o f (some n, none) w
  silent :
      (n : ℕ) (t : e.State) (w : World e G)
      → f n s ≡ (refused none, t)
      → In t h g w
      → Made s h g o f (none, none) w
  told :
      (n : ℕ) (t : e.State) (m : Bytes) (q : ℕ) (w : World e G)
      → f n s ≡ (refused (some m), t)
      → h q ≡ none
      → In t (put h q (some (message m))) g w
      → Made s h g o f (none, some q) w

module _ {e : Platform} {G : Type 0} {s : e.State} {h : Heap} {g : G} (w : World e G)
    (i : In s h g w) where
  pub c_string_of_known :
      Returns
        (c_string_of w)
        (λ r. (p : ℕ) × (r.0 ≡ some p) × (h p ≡ none) × In s (put h p (some c_string)) g r.1)
  unfolding c_string_of
  c_string_of_known =
      Returns-chain _ _ (alloc_known w i c_string)
        (λ r (_, x, b). Returns-returns _ (r.0, refl, x, b))

  pub free_known :
      (p : ℕ) → h p ≡ some c_string → Returns (free (some p) w) (λ r. In s (put h p none) g r.1)
  unfolding free
  free_known p live =
      the-chain w i.at as_c_string p c_string tt _ live refl (store_known w i p none (λ z. cc))

  pub zeta_free_known :
      (p : ℕ) (m : Bytes)
      → h p ≡ some (message m)
      → Returns (zeta_free (some p) w) (λ r. In s (put h p none) g r.1)
  unfolding zeta_free
  zeta_free_known p m live =
      the-chain w i.at as_message p (message m) m _ live refl (store_known w i p none (λ z. cc))

  pub go_string_known :
      (p : ℕ) (m : Bytes)
      → h p ≡ some (message m)
      → Returns (go_string (some p) w) (λ r. (r.0 ≡ m) × In s h g r.1)
  unfolding go_string
  go_string_known p m live =
      the-chain w i.at as_message p (message m) m _ live refl (Returns-returns _ (refl, i))

  module _ (d : ℕ) (live : h d ≡ some database) where
    pub zeta_errcode_known :
        Returns (zeta_errcode (some d) w) (λ r. (r.0 ≡ e.errcode s d) × In s h g r.1)
    unfolding zeta_errcode
    zeta_errcode_known = the-chain w i.at as_database d database tt _ live refl (ask_known w i _)

  module _ (p : ℕ) (owner : Option ℕ) (row : _) (live : h p ≡ some (statement owner row)) where
    pub zeta_bind_known :
        (k : ℤ) (v : Bound e.Float e.Double)
        → Returns
            (zeta_bind (some p) k v w)
            (λ r. (r.0 ≡ (e.bind s p k v).0) × In (e.bind s p k v).1 h g r.1)
    unfolding zeta_bind
    zeta_bind_known k v =
        the-chain w i.at as_statement p (statement owner row) (owner, row) _ live refl
          (ask_known w i (λ s. e.bind s p k v))

    pub zeta_stmt_errmsg_known :
        Returns (zeta_stmt_errmsg (some p) w) (λ r. (r.0 ≡ e.stmt_errmsg s p) × In s h g r.1)
    unfolding zeta_stmt_errmsg
    zeta_stmt_errmsg_known =
        the-chain w i.at as_statement p (statement owner row) (owner, row) _ live refl
          (ask_known w i (λ s. (e.stmt_errmsg s p, s)))

    pub zeta_reset_known : Returns (zeta_reset (some p) w) (λ r.
        (r.0 ≡ (e.reset s p).0) × In (e.reset s p).1 (put h p (some (statement owner false))) g r.1)
    unfolding zeta_reset
    zeta_reset_known =
        the-chain w i.at as_statement p (statement owner row) (owner, row) _ live refl
          (Returns-chain _ _ (ask_known w i (λ s. e.reset s p)) (λ r b.
            Returns-chain _ _ (store_known r.1 b.1 p _ (λ z. cc))
              (λ r' c. Returns-returns _ (b.0, c))))

    pub zeta_finalize_known :
        Returns (zeta_finalize (some p) w) (λ r. In (e.finalize s p) (put h p none) g r.1)
    unfolding zeta_finalize
    zeta_finalize_known =
        the-chain w i.at as_statement p (statement owner row) (owner, row) _ live refl
          (Returns-chain _ _ (ask_known w i (λ s. (tt, e.finalize s p)))
            (λ r b. store_known r.1 b.1 p none (λ z. cc)))

module _ {e : Platform} {G : Type 0} {s t : e.State} {h : Heap} {g : G} (o : Obj)
    (f : ℕ → e.State → Creation × e.State) (n : ℕ) (w : World e G) (i : In t h g w) where
  settle_known :
      (c : Creation)
      → f n s ≡ (c, t)
      → w.next ≡ n
      → Returns (settle c o w) (λ r. Made s h g o f r.0 r.1)
  unfolding settle message_of
  settle_known created q x = Returns-chain _ _ (alloc_known w i o) (λ r (y, fresh, b).
      Returns-returns _ (new r.0 t r.1 (subst (λ m. f m s ≡ (created, t)) (sym (y ∙ x)) q) fresh b))
  settle_known (refused none) q x = Returns-returns _ (silent n t w q i)
  settle_known (refused (some m)) q x =
      Returns-chain _ _
        (Returns-chain _ _ (alloc_known w i (message m)) (λ r b.
          Returns-returns
            {P = λ r.
              (p : ℕ) × (r.0 ≡ some p) × (h p ≡ none) × In t (put h p (some (message m))) g r.1}
            _ (r.0, refl, b.1, b.2)))
        (λ r (p, y, fresh, b).
          Returns-returns _
            (subst (λ z. Made s h g o f (none, z) r.1) (sym y) (told n t m p r.1 q fresh b)))

module _ {e : Platform} {G : Type 0} {s : e.State} {h : Heap} {g : G} (w : World e G)
    (i : In s h g w) where
  pub make_known :
      (o : Obj) (f : ℕ → e.State → Creation × e.State)
      → Returns (make f o w) (λ r. Made s h g o f r.0 r.1)
  unfolding make
  make_known o f =
      Returns-chain _ _ (ask_named w i (f w.next))
        (λ r (x, y, b). settle_known o f w.next r.1 b r.0 (ap (λ c. (c, (f w.next s).1)) (sym x)) y)

  pub zeta_prepare_known :
      (d : ℕ) (sql : Bytes)
      → h d ≡ some database
      → Returns
          (zeta_prepare (some d) sql w)
          (λ r. Made s h g (statement none false) (λ n s. e.prepare s n d (until_nul sql)) r.0 r.1)
  unfolding zeta_prepare
  zeta_prepare_known d sql live =
      the-chain w i.at as_database d database tt _ live refl (make_known _ _)

  pub zeta_txn_prepare_known :
      (t : ℕ) (sql : Bytes)
      → h t ≡ some transaction
      → Returns (zeta_txn_prepare (some t) sql w) (λ r.
        Made s h g (statement (some t) false) (λ n s. e.txn_prepare s n t (until_nul sql)) r.0 r.1)
  unfolding zeta_txn_prepare
  zeta_txn_prepare_known t sql live =
      the-chain w i.at as_transaction t transaction tt _ live refl (make_known _ _)
