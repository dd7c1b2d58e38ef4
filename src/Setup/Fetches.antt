-- ===== src/Setup/Fetches.antt =====
-- `downloadToTemp`: what it writes, and what it has fetched when it answers no error.
use mathlib.Core.Path.{subst}
use zeta_go.Prelude.{
  ℕ, ◌≡◌, refl, sym, ap, ◌∙◌, ◌==◌, ==_iff, Bool, true, false, not, Option, none, some, List,
  if◌then◌else◌,
}
use zeta_go.Machine.{Bytes}
use zeta_go.Setup.Text.{wanted_sum, hex}
use zeta_go.Setup.Disk.{
  Host, Fetch, unreachable, response, FilePath, joined, temporary, Node, file, Nodes, put_node,
  OsError, other, Computer, Answer, ok, err, pure, ◌>>=◌, ◌>>◌, attempt, create_temp, fill, finish,
  remove, http_get,
}
use zeta_go.Setup.Names.{SetupError, http_status, os}
use zeta_go.Setup.Download.{or_removed, copy_body, store_body, received, download_to_temp}
use zeta_go.Setup.Rules.{
  After, After-pure, After-mono, After-bind, After-attempt, But, put_node-But, put_node_self,
}
use zeta_go.Setup.Calls.{create_temp-After, Temps, fill-After, Fills, finish-After, remove-After}
use zeta_go.Setup.Writes.{But-same}

-- Only temporary files have changed.
abbrev pub Temporary : Nodes → Nodes → Type 0
Temporary t t' = (p : Bytes) (ns : List Bytes) → t' (joined p ns) ≡ t (joined p ns)

pub But-Temporary : (i : ℕ) (t t' : Nodes) → But (temporary i) t t' → Temporary t t'
But-Temporary i t t' but p ns = but (joined p ns) refl

Temporary-trans : (s t u : Nodes) → Temporary s t → Temporary t u → Temporary s u
Temporary-trans s t u a b p ns = b p ns ∙ a p ns

-- The network has answered a request for the address with these bytes, whole.
abbrev pub Fetched : (h : Host) → Bytes → Bytes → Type 0
Fetched h url b = (s : h.State) × ((h.fetch s url).0 ≡ response 200 b none)

-- SHA256SUMS at the address lists the checksum of these bytes for the name.
abbrev pub Checked : (h : Host) → Bytes → Bytes → Bytes → Type 0
Checked h url name b =
    (sums : Bytes) × Fetched h url sums × (wanted_sum name sums ≡ hex (h.sha256 b))

-- What `downloadToTemp` leaves.
abbrev pub Downloads : {h : Host} → Bytes → Nodes → Answer SetupError FilePath → Computer h → Type 0
Downloads {h} url t (ok p) w =
    (i : ℕ) × (b : Bytes) × (p ≡ temporary i)
    × (w.nodes (temporary i) ≡ some (file b))
    × Fetched h url b
    × Temporary t w.nodes
Downloads url t (err x) w = Temporary t w.nodes

module _ {h : Host} (t : Nodes) (i : ℕ) (b : Bytes) where
  abbrev Stored : Answer OsError (Unit {0}) → Computer h → Type 0
  Stored (ok u) w = (w.nodes (temporary i) ≡ some (file b)) × Temporary t w.nodes
  Stored (err x) w = Temporary t w.nodes

  fill-Stored : (w : Computer h) → Temporary t w.nodes → After (fill (temporary i) b w) Stored
  fill-Stored w kept = After-mono _ (fill-After (temporary i) b w) (λ r w' f. done r w' f)
    where
      changed :
          (n : Option Node) (w' : Computer h)
          → But (temporary i) w.nodes w'.nodes
          → Temporary t w'.nodes
      changed n w' but =
          Temporary-trans t w.nodes w'.nodes kept (But-Temporary i w.nodes w'.nodes but)

      written :
          (n : Option Node) (w' : Computer h)
          → w'.nodes ≡ put_node w.nodes (temporary i) n
          → Temporary t w'.nodes
      written n w' same = changed n w' (
          But-same (temporary i) w.nodes (put_node w.nodes (temporary i) n) w'.nodes
            (put_node-But w.nodes (temporary i) n) same)

      done :
          (r : Answer OsError (Unit {0})) (w' : Computer h)
          → Fills w (temporary i) b r w'
          → Stored r w'
      done (ok u) w' same = (
        ap (λ (m : Nodes). m (temporary i)) same
            ∙ put_node_self w.nodes (temporary i) (some (file b)),
        written (some (file b)) w' same,
      )
      done (err x) w' (c, same) = written (some (file c)) w' same

module _ {h : Host} (url : Bytes) (t : Nodes) (i : ℕ) (b : Bytes) where
  removed-Downloads :
      (x : OsError) (w : Computer h)
      → Temporary t w.nodes
      → After ((do remove (temporary i); pure (err (os x))) w) (Downloads url t)
  removed-Downloads x w kept = After-bind _ _ (remove-After (temporary i) w) (λ r w' but.
      After-pure (err (os x)) w'
        (Temporary-trans t w.nodes w'.nodes kept (But-Temporary i w.nodes w'.nodes but)))

  -- A body that has arrived whole is stored.
  stored-Downloads :
      (r : Answer OsError (Unit {0})) (w : Computer h)
      → Fetched h url b
      → Stored t i b r w
      → After
          (or_removed
            (temporary i)
            r
            (do c ← finish; or_removed (temporary i) c (pure (ok (temporary i))))
            w)
          (Downloads url t)
  stored-Downloads (err x) w fetched kept = removed-Downloads x w kept
  stored-Downloads (ok u) w fetched (here, kept) =
      After-bind _ _ (finish-After w) (λ r w' same. closed r w' same)
    where
      same-Temporary : (w' : Computer h) → w'.nodes ≡ w.nodes → Temporary t w'.nodes
      same-Temporary w' same p ns = ap (λ (m : Nodes). m (joined p ns)) same ∙ kept p ns

      closed :
          (r : Answer OsError (Unit {0})) (w' : Computer h)
          → w'.nodes ≡ w.nodes
          → After (or_removed (temporary i) r (pure (ok (temporary i))) w') (Downloads url t)
      closed (ok u) w' same = After-pure _ w' (
        i,
        b,
        refl,
        ap (λ (m : Nodes). m (temporary i)) same ∙ here,
        fetched,
        same-Temporary w' same,
      )
      closed (err x) w' same = removed-Downloads x w' (same-Temporary w' same)

module _ {h : Host} (url : Bytes) (t : Nodes) (b : Bytes) where
  store_body-Downloads :
      (end : Option ℕ) (i : ℕ) (w : Computer h)
      → (end ≡ none → Fetched h url b)
      → Temporary t w.nodes
      → After (store_body b end (temporary i) w) (Downloads url t)
  unfolding store_body copy_body
  store_body-Downloads none i w fetched kept =
      After-bind _ _ (fill-Stored t i b w kept)
        (λ r w' s. stored-Downloads url t i b r w' (fetched refl) s)
  store_body-Downloads (some n) i w fetched kept = After-bind _ _ copied (λ r w' k. ended r w' k)
    where
      Failed : Answer OsError (Unit {0}) → Type 0
      Failed (ok u) = ⊥
      Failed (err x) = Unit {0}

      copied :
          After
            (attempt (fill (temporary i) b) (λ x. x) (λ u. pure (err (other n))) w)
            (λ r w'. Failed r × Temporary t w'.nodes)
      copied =
          After-attempt _ _ _ (fill-Stored t i b w kept) (λ x w' k. (tt, k))
            (λ u w' k. After-pure (err (other n)) w' (tt, k.1))

      ended :
          (r : Answer OsError (Unit {0})) (w' : Computer h)
          → Failed r × Temporary t w'.nodes
          → After
              (or_removed
                (temporary i)
                r
                (do c ← finish; or_removed (temporary i) c (pure (ok (temporary i))))
                w')
              (Downloads url t)
      ended (ok u) w' k = absurd k.0
      ended (err x) w' k = removed-Downloads url t i b x w' k.1

module _ {h : Host} (url : Bytes) where
  -- The answer of the network, with the disk as it was.
  abbrev pub Gets : Computer h → Fetch → Computer h → Type 0
  Gets w r w' = (r ≡ (h.fetch w.env url).0) × (w'.nodes ≡ w.nodes)

  pub http_get-After : (w : Computer h) → After (http_get url w) (Gets w)
  unfolding http_get
  http_get-After w = record { holds = (refl, refl) }

  created-Temporary :
      (t : Nodes) (w w' : Computer h) (p : FilePath)
      → Temporary t w.nodes
      → Temps w (ok p) w'
      → Temporary t w'.nodes
  created-Temporary t w w' p kept (i, same, but) =
      Temporary-trans t w.nodes w'.nodes kept
        (But-Temporary i w.nodes w'.nodes (subst (λ q. But q w.nodes w'.nodes) same but))

  received-Downloads :
      (t : Nodes) (r : Fetch) (w : Computer h)
      → ((b : Bytes) → r ≡ response 200 b none → Fetched h url b)
      → Temporary t w.nodes
      → After (received r w) (Downloads url t)
  unfolding received
  received-Downloads t (unreachable n) w fetched kept = After-pure _ w kept
  received-Downloads t (response status body end) w fetched kept = decided (status == 200) refl
    where
      whole : (status == 200) ≡ true → end ≡ none → Fetched h url body
      whole found complete = fetched body (rw ((==_iff status 200).0 found, complete) refl)

      decided :
          (b : Bool)
          → (status == 200) ≡ b
          → After
              ((if not b
                  then pure (err (http_status status))
                  else attempt create_temp (λ x. os x) (store_body body end))
                w)
              (Downloads url t)
      decided false apart = After-pure _ w kept
      decided true found =
          After-attempt _ _ _ (create_temp-After w)
            (λ x w' same p ns. ap (λ (m : Nodes). m (joined p ns)) same ∙ kept p ns)
            (λ p w' c. rw c.1 (
              store_body-Downloads url t body end c.0 w' (whole found)
                (created-Temporary t w w' p kept c)))

  -- `downloadToTemp` leaves the whole body in a temporary file, or answers an error; it changes
  -- temporary files only.
  pub download_to_temp-Downloads :
      (w : Computer h) → After (download_to_temp url w) (Downloads url w.nodes)
  unfolding download_to_temp
  download_to_temp-Downloads w = After-bind _ _ (http_get-After w) (λ r w' g.
      received-Downloads w.nodes r w' (λ b whole. (w.env, sym g.0 ∙ whole))
        (λ p ns. ap (λ (m : Nodes). m (joined p ns)) g.1))
