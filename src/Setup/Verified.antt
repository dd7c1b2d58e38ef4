-- ===== src/Setup/Verified.antt =====
-- `verifySha256`: what it has seen when it answers no error. It changes no file.
use zeta_go.Prelude.{
  ℕ, ◌≡◌, refl, sym, ap, ◌∙◌, ◌==◌, ==_iff, Bool, true, false, not, Option, none, some,
  if◌then◌else◌,
}
use zeta_go.Prelude.Lists.{eq_bytes, eq_bytes_eq}
use zeta_go.Machine.{Bytes}
use zeta_go.Schema.{is_empty}
use zeta_go.Setup.Text.{wanted_sum, hex}
use zeta_go.Setup.Disk.{
  Host, Fetch, unreachable, response, FilePath, file, Nodes, Computer, Answer, ok, err, pure,
  attempt, read_file,
}
use zeta_go.Setup.Names.{SetupError, network, sums_status, os, no_entry, mismatch}
use zeta_go.Setup.Download.{compare_sum, check_sum, sums_read, sums_received, verify_sha256}
use zeta_go.Setup.Rules.{After, After-pure, After-bind, After-attempt}
use zeta_go.Setup.Calls.{read_file-After}
use zeta_go.Setup.Fetches.{Fetched, Checked, http_get-After}

module _ {h : Host} (t : Nodes) (url name : Bytes) (tmp : FilePath) where
  -- No file has changed; without an error, the file has the checksum that is published.
  abbrev pub Verifies : Answer SetupError (Unit {0}) → Computer h → Type 0
  Verifies (ok u) w = (b : Bytes) × (t tmp ≡ some (file b)) × Checked h url name b × (w.nodes ≡ t)
  Verifies (err x) w = w.nodes ≡ t

  compare_sum-Verifies :
      (sums b : Bytes) (w : Computer h)
      → Fetched h url sums
      → t tmp ≡ some (file b)
      → w.nodes ≡ t
      → After (compare_sum (wanted_sum name sums) b w) Verifies
  unfolding compare_sum
  compare_sum-Verifies sums b w fetched here same = decided (eq_bytes got want) refl
    where
      got : Bytes
      got = hex (h.sha256 b)

      want : Bytes
      want = wanted_sum name sums

      decided :
          (e : Bool)
          → eq_bytes got want ≡ e
          → After ((if not e then pure (err (mismatch want got)) else pure (ok tt)) w) Verifies
      decided true found =
          After-pure (ok tt) w (b, here, (sums, fetched, sym (eq_bytes_eq got want found)), same)
      decided false apart = After-pure (err (mismatch want got)) w same

  check_sum-Verifies :
      (sums : Bytes) (w : Computer h)
      → Fetched h url sums
      → w.nodes ≡ t
      → After (check_sum tmp name sums w) Verifies
  unfolding check_sum
  check_sum-Verifies sums w fetched same = decided (is_empty (wanted_sum name sums))
    where
      read :
          After
            (attempt (read_file tmp) (λ x. os x) (compare_sum (wanted_sum name sums)) w)
            Verifies
      read =
          After-attempt _ _ _ (read_file-After tmp w) (λ x w' s. s ∙ same)
            (λ b w' s.
              compare_sum-Verifies sums b w' fetched (ap (λ (m : Nodes). m tmp) (sym same) ∙ s.1)
                (s.0 ∙ same))

      decided :
          (e : Bool)
          → After
              ((if e
                  then pure (err (no_entry name))
                  else attempt (read_file tmp) (λ x. os x) (compare_sum (wanted_sum name sums)))
                w)
              Verifies
      decided true = After-pure (err (no_entry name)) w same
      decided false = read

  sums_received-Verifies :
      (r : Fetch) (w : Computer h)
      → ((b : Bytes) → r ≡ response 200 b none → Fetched h url b)
      → w.nodes ≡ t
      → After (sums_received tmp name r w) Verifies
  unfolding sums_received
  sums_received-Verifies (unreachable n) w fetched same = After-pure (err (network n)) w same
  sums_received-Verifies (response status sums end) w fetched same = decided (status == 200) refl
    where
      whole : (status == 200) ≡ true → end ≡ none → Fetched h url sums
      whole found complete = fetched sums (rw ((==_iff status 200).0 found, complete) refl)

      ended :
          (e : Option ℕ)
          → (e ≡ none → Fetched h url sums)
          → After (sums_read tmp name sums e w) Verifies
      ended none f = check_sum-Verifies sums w (f refl) same
      ended (some n) f = After-pure (err (network n)) w same

      decided :
          (e : Bool)
          → (status == 200) ≡ e
          → After
              ((if not e then pure (err (sums_status status)) else sums_read tmp name sums end) w)
              Verifies
      decided false apart = After-pure (err (sums_status status)) w same
      decided true found = ended end (whole found)

-- `verifySha256` changes no file; without an error, the file has the checksum that is published.
pub verify_sha256-Verifies :
    {h : Host} (url name : Bytes) (tmp : FilePath) (w : Computer h)
    → After (verify_sha256 tmp url name w) (Verifies w.nodes url name tmp)
unfolding verify_sha256
verify_sha256-Verifies url name tmp w = After-bind _ _ (http_get-After url w) (λ r w' g.
    sums_received-Verifies w.nodes url name tmp r w' (λ b whole. (w.env, sym g.0 ∙ whole)) g.1)
