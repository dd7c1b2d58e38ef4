-- ===== src/Setup/Installs.antt =====
-- `install` has one of its outcomes.
use mathlib.Core.Path.{subst}
use zeta_go.Prelude.{
  ℕ, ◌≡◌, inl, inr, refl, sym, ap, ◌∙◌, Bool, true, false, not, Option, some, if◌then◌else◌,
}
use zeta_go.Prelude.Lists.{eq_bytes, eq_bytes_eq}
use zeta_go.Machine.{Bytes}
use zeta_go.Errors.{codes}
use zeta_go.Setup.Text.{trim_space}
use zeta_go.Setup.Disk.{
  Host, temporary, Node, file, Nodes, OsError, downloading, verifying, Computer, Answer, ok, err,
  pure, ◌>>=◌, ◌>>◌, attempt, say,
}
use zeta_go.Setup.Names.{
  SetupError, unsupported, sha256_verify, version_path, supported, current_platform, artifact_name,
  release_url, same_version,
}
use zeta_go.Setup.Download.{verify_sha256}
use zeta_go.Setup.Install.{
  place, verified, install_temp, install_new, is_installed, install_unless, install,
}
use zeta_go.Setup.Rules.{After, After-pure, After-mono, After-bind, After-attempt, But}
use zeta_go.Setup.Calls.{remove-After, read_file-After, Reads}
use zeta_go.Setup.Fetches.{Temporary, But-Temporary, Fetched, Checked, download_to_temp-Downloads}
use zeta_go.Setup.Verified.{Verifies, verify_sha256-Verifies}
use zeta_go.Setup.Placing.{place-Outcome}
use zeta_go.Setup.Outcome.{below, below-Temporary, Genuine, Outcome}

file_inj : (b c : Bytes) → ◌≡◌ {A = Option Node} (some (file b)) (some (file c)) → b ≡ c
file_inj b c e = cc

module _ {h : Host} (version prefix : Bytes) (no_verify : Bool) where
  abbrev Passed : Computer h → Bytes → Answer SetupError (Unit {0}) → Nodes → Type 0
  Passed w b (ok u) t = Genuine h version prefix no_verify b × (t ≡ w.nodes)
  Passed w b (err x) t = (no_verify ≡ false) × (t ≡ w.nodes)

  verified-Genuine :
      (i : ℕ) (b : Bytes) (w : Computer h)
      → w.nodes (temporary i) ≡ some (file b)
      → Fetched h (release_url version (artifact_name h)) b
      → After (verified version no_verify (temporary i) w) (λ r w'. Passed w b r w'.nodes)
  unfolding verified say
  verified-Genuine i b w here fetched = decided no_verify refl
    where
      url : Bytes
      url = release_url version (codes "SHA256SUMS")

      checked :
          (r : Answer SetupError (Unit {0})) (w' : Computer h)
          → no_verify ≡ false
          → Verifies {h = h} w.nodes url (artifact_name h) (temporary i) r w'
          → Passed w b r w'.nodes
      checked (ok u) w' wanted (c, there, sums, same) = (
        (
          fetched,
          inr (
              subst (λ x. Checked h url (artifact_name h) x) (file_inj c b (sym there ∙ here))
                sums),
        ),
        same,
      )
      checked (err x) w' wanted same = (wanted, same)

      decided :
          (e : Bool)
          → no_verify ≡ e
          → After
              ((if e
                  then pure (ok tt)
                  else (do say (verifying url); verify_sha256 (temporary i) url (artifact_name h)))
                w)
              (λ r w'. Passed w b r w'.nodes)
      decided true skipped = After-pure (ok tt) w ((fetched, inl skipped), refl)
      decided false wanted =
          After-mono _
            (verify_sha256-Verifies url (artifact_name h) (temporary i) (say (verifying url) w).1)
            (λ r w' v. checked r w' wanted v)

  -- The temporary file is removed when `install` is done with it.
  install_temp-Outcome :
      (force : Bool) (i : ℕ) (b : Bytes) (w : Computer h)
      → w.nodes (temporary i) ≡ some (file b)
      → Fetched h (release_url version (artifact_name h)) b
      → After
          (install_temp version prefix no_verify (temporary i) w)
          (λ r w'. Outcome h version prefix no_verify force (below w.nodes) r (below w'.nodes))
  unfolding install_temp
  install_temp-Outcome force i b w here fetched = After-bind _ _ body (λ r w1 o.
      After-bind _ _ (remove-After (temporary i) w1)
        (λ r' w2 but. After-pure r w2 (cleaned r w1 w2 o but)))
    where
      cleaned :
          (r : Answer SetupError (Unit {0})) (w1 w2 : Computer h)
          → Outcome h version prefix no_verify force (below w.nodes) r (below w1.nodes)
          → But (temporary i) w1.nodes w2.nodes
          → Outcome h version prefix no_verify force (below w.nodes) r (below w2.nodes)
      cleaned r w1 w2 o but =
          subst (λ v. Outcome h version prefix no_verify force (below w.nodes) r v)
            (sym (below-Temporary w1.nodes w2.nodes (But-Temporary i w1.nodes w2.nodes but))) o

      placed :
          (w1 : Computer h)
          → Genuine h version prefix no_verify b
          → w1.nodes ≡ w.nodes
          → After
              (place version prefix (temporary i) w1)
              (λ r w'. Outcome h version prefix no_verify force (below w.nodes) r (below w'.nodes))
      placed w1 genuine same =
          subst
            (λ t.
              After (place version prefix (temporary i) w1)
                (λ r w'. Outcome h version prefix no_verify force (below t) r (below w'.nodes)))
            same
            (place-Outcome version prefix no_verify force i b w1
              (ap (λ (m : Nodes). m (temporary i)) same ∙ here) genuine)

      body :
          After
            (attempt
              (verified version no_verify (temporary i))
              (λ x. sha256_verify x)
              (λ u. place version prefix (temporary i))
              w)
            (λ r w'. Outcome h version prefix no_verify force (below w.nodes) r (below w'.nodes))
      body =
          After-attempt _ _ _ (verified-Genuine i b w here fetched) (λ x w1 p. (p.0, ap below p.1))
            (λ u w1 p. placed w1 p.0 p.1)

  install_new-Outcome :
      (force : Bool) (w : Computer h)
      → After
          (install_new version prefix no_verify w)
          (λ r w'. Outcome h version prefix no_verify force (below w.nodes) r (below w'.nodes))
  unfolding install_new say
  install_new-Outcome force w =
      After-attempt _ _ _ (download_to_temp-Downloads url (say (downloading url) w).1)
        (λ x w1 kept. below-Temporary w.nodes w1.nodes kept)
        (λ p w1 d. rw d.2 (installs w1 d.0 d.1 d.3 d.4 d.5))
    where
      url : Bytes
      url = release_url version (artifact_name h)

      installs :
          (w1 : Computer h) (i : ℕ) (b : Bytes)
          → w1.nodes (temporary i) ≡ some (file b)
          → Fetched h url b
          → Temporary w.nodes w1.nodes
          → After
              (install_temp version prefix no_verify (temporary i) w1)
              (λ r w'. Outcome h version prefix no_verify force (below w.nodes) r (below w'.nodes))
      installs w1 i b here fetched kept =
          subst
            (λ v.
              After (install_temp version prefix no_verify (temporary i) w1)
                (λ r w'. Outcome h version prefix no_verify force v r (below w'.nodes)))
            (below-Temporary w.nodes w1.nodes kept) (install_temp-Outcome force i b w1 here fetched)

  -- What is known once VERSION has been looked at.
  abbrev Looked : Bool → Computer h → Bool → Computer h → Type 0
  Looked force w true w' =
      (w'.nodes ≡ w.nodes)
      × (force ≡ false)
      × (c : Bytes) × (w.nodes (version_path prefix) ≡ some (file c))
      × (trim_space c ≡ version)
  Looked force w false w' = w'.nodes ≡ w.nodes

  is_installed-Looked :
      (force : Bool) (w : Computer h) → After (is_installed version prefix force w) (Looked force w)
  unfolding is_installed
  is_installed-Looked true w = After-pure false w refl
  is_installed-Looked false w =
      After-bind _ _ (read_file-After (version_path prefix) w) (λ r w' s. read r w' s)
    where
      compared :
          (c : Bytes) (w' : Computer h)
          → w'.nodes ≡ w.nodes
          → w.nodes (version_path prefix) ≡ some (file c)
          → (b : Bool) → eq_bytes (trim_space c) version ≡ b
          → Looked false w b w'
      compared c w' same here true found =
          (same, refl, c, here, eq_bytes_eq (trim_space c) version found)
      compared c w' same here false apart = same

      read :
          (r : Answer OsError Bytes) (w' : Computer h)
          → Reads w (version_path prefix) r w'
          → After (pure (same_version version r) w') (Looked false w)
      read (ok c) w' s =
          After-pure _ w' (compared c w' s.0 s.1 (eq_bytes (trim_space c) version) refl)
      read (err x) w' s = After-pure false w' s

  install_unless-Outcome :
      (force : Bool) (w : Computer h) (present : Bool) (w' : Computer h)
      → Looked force w present w'
      → After
          (install_unless version prefix no_verify present w')
          (λ r w2. Outcome h version prefix no_verify force (below w.nodes) r (below w2.nodes))
  unfolding install_unless say
  install_unless-Outcome force w true w' l = record {
    holds = inl (l.1, l.2, l.3, l.4, ap below l.0);
  }
  install_unless-Outcome force w false w' same =
      subst
        (λ t.
          After (install_new version prefix no_verify w')
            (λ r w2. Outcome h version prefix no_verify force (below t) r (below w2.nodes)))
        same (install_new-Outcome force w')

-- Whatever the calls of the operating system and the network answer, `install` does one of these.
-- Without an error, it has found VERSION with the version, without `force`, and changed nothing; or
-- the library holds the bytes that the network answered for the version and the platform, VERSION
-- holds the version and a newline, and a SHA256SUMS that the network answered lists the checksum of
-- the library, unless that was not wanted. The errors for a platform, a download and a checksum
-- leave everything below the prefixes as it was, the one of `os.MkdirAll` has at most made
-- directories, the one of `copyFile` has changed at most the library too, so that VERSION is
-- untouched, and the one for VERSION leaves the library in place. No other error is returned, and
-- no other path below a prefix changes.
pub install-Outcome :
    {h : Host} (version prefix : Bytes) (force no_verify : Bool) (w : Computer h)
    → Outcome h version prefix no_verify force
        (below w.nodes)
        (install version prefix force no_verify w).0
        (below (install version prefix force no_verify w).1.nodes)
unfolding install
install-Outcome {h} version prefix force no_verify w =
    (decided (supported (current_platform h)) refl).holds
  where
    decided :
        (b : Bool)
        → supported (current_platform h) ≡ b
        → After
            ((if not b then pure (err (unsupported (current_platform h))) else (do
              present ← is_installed version prefix force
              install_unless version prefix no_verify present))
              w)
            (λ r w'. Outcome h version prefix no_verify force (below w.nodes) r (below w'.nodes))
    decided false unknown = After-pure (err (unsupported (current_platform h))) w (unknown, refl)
    decided true known =
        After-bind _ _ (is_installed-Looked version prefix no_verify force w)
          (λ present w' l. install_unless-Outcome version prefix no_verify force w present w' l)
