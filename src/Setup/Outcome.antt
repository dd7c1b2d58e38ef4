-- ===== src/Setup/Outcome.antt =====
-- What `install` leaves below the prefixes, for each of its answers.
use zeta_go.Prelude.{
  ◌≡◌, ◌⊎◌, inl, inr, refl, ◌∙◌, Bool, true, false, ◌||◌, Option, some, List, [], ◌∷◌, ◌++◌,
}
use zeta_go.Machine.{Bytes}
use zeta_go.Errors.{codes}
use zeta_go.Schema.{newline}
use zeta_go.Setup.Text.{trim_space}
use zeta_go.Setup.Disk.{Host, FilePath, joined, eq_path, Node, file, Nodes, Answer, ok, err}
use zeta_go.Setup.Names.{
  SetupError, unsupported, download, sha256_verify, mkdir, install_to, write_version, lib_names,
  version_names, target_file, version_path, supported, current_platform, artifact_name, release_url,
}
use zeta_go.Setup.Rules.{But, Grows}
use zeta_go.Setup.Fetches.{Temporary, Fetched, Checked}

-- What lies below the prefixes: every path but the temporary files.
abbrev pub Below : Type 0
Below = Bytes → List Bytes → Option Node

abbrev pub below : Nodes → Below
below t p ns = t (joined p ns)

pub below-Temporary : (t t' : Nodes) → Temporary t t' → below t' ≡ below t
below-Temporary t t' kept i p ns = kept p ns i

abbrev among : List FilePath → FilePath → Bool
among [] q = false
among (p ∷ ps) q = eq_path p q || among ps q

-- But for the paths of a list, nothing has changed except that directories have been made where
-- nothing was.
abbrev pub Within : List FilePath → Below → Below → Type 0
Within ps v v' =
    (p : Bytes) (ns : List Bytes) → (among ps (joined p ns) ≡ true) ⊎ Grows (v p ns) (v' p ns)

-- A change at one more path.
pub Within-But :
    (ps : List FilePath) (v : Below) (f : FilePath) (t t' : Nodes)
    → Within ps v (below t)
    → But f t t'
    → Within (f ∷ ps) v (below t')
Within-But ps v f t t' grown but p ns = decided (eq_path f (joined p ns)) refl (grown p ns)
  where
    decided :
        (b : Bool)
        → eq_path f (joined p ns) ≡ b
        → (among ps (joined p ns) ≡ true) ⊎ Grows (v p ns) (t (joined p ns))
        → (among (f ∷ ps) (joined p ns) ≡ true) ⊎ Grows (v p ns) (t' (joined p ns))
    decided true same g = inl (rw same refl)
    decided false apart (inl m) = inl (rw (apart, m) refl)
    decided false apart (inr (inl e)) = inr (inl (but (joined p ns) apart ∙ e))
    decided false apart (inr (inr (absent, e))) = inr (inr (absent, but (joined p ns) apart ∙ e))

module _ (h : Host) (version prefix : Bytes) (no_verify : Bool) where
  -- The network has answered these bytes as the library of the version, and, unless that is not
  -- wanted, a SHA256SUMS that lists their checksum.
  abbrev pub Genuine : Bytes → Type 0
  Genuine b =
      Fetched h (release_url version (artifact_name h)) b
      × ((no_verify ≡ true)
          ⊎ Checked h (release_url version (codes "SHA256SUMS")) (artifact_name h) b)

  -- `install` finds VERSION and changes nothing.
  abbrev pub Present : Bool → Below → Below → Type 0
  Present force v v' =
      (force ≡ false)
      × (c : Bytes) × (v prefix version_names ≡ some (file c))
      × (trim_space c ≡ version)
      × (v' ≡ v)

  -- The library is in its place, and at most the two files and directories have changed.
  abbrev pub Copied : Below → Below → Type 0
  Copied v v' =
      (b : Bytes) × Genuine b
      × (v' prefix lib_names ≡ some (file b))
      × Within (version_path prefix ∷ target_file prefix ∷ []) v v'

  -- VERSION is there too.
  abbrev pub Placed : Below → Below → Type 0
  Placed v v' = (v' prefix version_names ≡ some (file (version ++ newline ∷ []))) × Copied v v'

  abbrev pub Outcome : Bool → Below → Answer SetupError (Unit {0}) → Below → Type 0
  Outcome force v (ok u) v' = Present force v v' ⊎ Placed v v'
  Outcome force v (err (unsupported p)) v' = (supported (current_platform h) ≡ false) × (v' ≡ v)
  Outcome force v (err (download url x)) v' = v' ≡ v
  Outcome force v (err (sha256_verify x)) v' = (no_verify ≡ false) × (v' ≡ v)
  Outcome force v (err (mkdir d x)) v' = Within [] v v'
  Outcome force v (err (install_to f x)) v' = Within (target_file prefix ∷ []) v v'
  Outcome force v (err (write_version x)) v' = Copied v v'
  Outcome force v (err _) v' = ⊥
