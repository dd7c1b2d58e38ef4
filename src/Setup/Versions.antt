-- ===== src/Setup/Versions.antt =====
-- VERSION after `install`: what `version` reads, and what the next `install` does.
use mathlib.Core.Path.{subst}
use zeta_go.Prelude.{
  ◌≡◌, ◌≢◌, inl, inr, refl, sym, ap, ◌∙◌, Bool, Bool-cases, true, false, none, some, [], ◌∷◌, ◌++◌,
}
use zeta_go.Prelude.Lists.{eq_bytes_refl}
use zeta_go.Machine.{Bytes}
use zeta_go.Schema.{newline}
use zeta_go.Setup.Text.{trim_space}
use zeta_go.Setup.Trimming.{trim_space-newline, trim_space-trim_space}
use zeta_go.Setup.Disk.{
  Host, FilePath, file, Computer, Answer, ok, err, calls, read_file, node_at, say, OsError,
}
use zeta_go.Setup.Names.{
  SetupError, unsupported, install_to, version_names, version_path, supported, current_platform,
}
use zeta_go.Setup.Install.{install, is_installed, install_unless}
use zeta_go.Setup.Outcome.{Below, below, Outcome}
use zeta_go.Setup.Installs.{install-Outcome}

-- What VERSION holds after a successful `install`.
abbrev pub Recorded : Bytes → Bytes → Below → Type 0
Recorded version prefix v =
    (c : Bytes) × (v prefix version_names ≡ some (file c)) × (trim_space c ≡ trim_space version)

recorded :
    (h : Host) (version prefix : Bytes) (force no_verify : Bool) (v v' : Below)
    → Outcome h version prefix no_verify force v (ok tt) v'
    → Recorded version prefix v'
recorded h version prefix force no_verify v v' (inl (asked, c, here, same, kept)) = (
  c,
  ap (λ (u : Below). u prefix version_names) kept ∙ here,
  sym (trim_space-trim_space c) ∙ ap trim_space same,
)
recorded h version prefix force no_verify v v' (inr (here, copied)) =
    (version ++ newline ∷ [], here, trim_space-newline version)

ok_unsupported : (p : Bytes) → ◌≢◌ {A = Answer SetupError (Unit {0})} (ok tt) (err (unsupported p))
ok_unsupported p e = cc

install_to_unsupported :
    (f : FilePath) (x : OsError) (p : Bytes)
    → ◌≢◌ {A = Answer SetupError (Unit {0})} (err (install_to f x)) (err (unsupported p))
install_to_unsupported f x p e = cc

-- VERSION stays what it is when `copyFile` fails.
version-kept :
    (h : Host) (version prefix : Bytes) (force no_verify : Bool) (v v' : Below) (f : FilePath)
    (x : OsError) (c : Bytes)
    → Outcome h version prefix no_verify force v (err (install_to f x)) v'
    → v prefix version_names ≡ some (file c)
    → v' prefix version_names ≡ some (file c)
version-kept h version prefix force no_verify v v' f x c o here = elim (o prefix version_names) [
  | inl e ↦ cc
  | inr (inl same) ↦ same ∙ here
  | inr (inr (absent, made)) ↦ cc
]

module _ {h : Host} where
  -- No fault stops the next call.
  abbrev pub Sound : Computer h → Type 0
  Sound w = (h.fault w.env).0 ≡ none

  pub read_file-found :
      (p : FilePath) (c : Bytes) (w : Computer h)
      → Sound w
      → w.nodes p ≡ some (file c)
      → read_file p w ≡ (ok c, record w { env = (h.fault w.env).1 })
  unfolding read_file calls node_at
  read_file-found p c w sound here = rw (read_file, calls, sound, here) refl

  -- `install` stops at a VERSION with the version.
  install-present :
      (version prefix : Bytes) (no_verify : Bool) (c : Bytes) (w : Computer h)
      → supported (current_platform h) ≡ true
      → Sound w
      → w.nodes (version_path prefix) ≡ some (file c)
      → trim_space c ≡ version
      → ((install version prefix false no_verify w).0 ≡ ok tt)
        × ((install version prefix false no_verify w).1.nodes ≡ w.nodes)
  unfolding install is_installed install_unless say
  install-present version prefix no_verify c w known sound here same =
      rw (known, read_file-found (version_path prefix) c w sound here, same, eq_bytes_refl version)
        (refl, refl)

  -- Only on a platform of the list does `install` get anywhere.
  install-unsupported :
      (version prefix : Bytes) (force no_verify : Bool) (w : Computer h)
      → supported (current_platform h) ≡ false
      → (install version prefix force no_verify w).0 ≡ err (unsupported (current_platform h))
  unfolding install
  install-unsupported version prefix force no_verify w unknown = rw unknown refl

  supported-install :
      (version prefix : Bytes) (force no_verify : Bool) (w : Computer h)
      → (install version prefix force no_verify w).0 ≢ err (unsupported (current_platform h))
      → supported (current_platform h) ≡ true
  supported-install version prefix force no_verify w known =
      elim (Bool-cases (supported (current_platform h))) [
        | inl found ↦ found
        | inr unknown ↦
            absurd (known (install-unsupported version prefix force no_verify w unknown))
      ]

  pub install-Recorded :
      (version prefix : Bytes) (force no_verify : Bool) (w : Computer h)
      → (install version prefix force no_verify w).0 ≡ ok tt
      → Recorded version prefix (below (install version prefix force no_verify w).1.nodes)
  install-Recorded version prefix force no_verify w fine =
      recorded h version prefix force no_verify (below w.nodes) _ (
        subst
          (λ r.
            Outcome h version prefix no_verify force (below w.nodes) r
              (below (install version prefix force no_verify w).1.nodes))
          fine (install-Outcome version prefix force no_verify w))

  -- A second `install` of a version without space around it, without `force`, answers no error and
  -- changes no file, when VERSION can be read.
  pub install-install :
      (version prefix : Bytes) (force no_verify no_verify' : Bool) (w : Computer h)
      → (install version prefix force no_verify w).0 ≡ ok tt
      → Sound (install version prefix force no_verify w).1
      → trim_space version ≡ version
      → ((install version prefix false no_verify' (install version prefix force no_verify w).1).0
          ≡ ok tt)
        × ((install version prefix false no_verify'
              (install version prefix force no_verify w).1).1.nodes
            ≡ (install version prefix force no_verify w).1.nodes)
  install-install version prefix force no_verify no_verify' w fine sound trimmed =
      let m = install-Recorded version prefix force no_verify w fine in
      install-present version prefix no_verify' m.0 (install version prefix force no_verify w).1
        (supported-install version prefix force no_verify w (λ e. ok_unsupported _ (sym fine ∙ e)))
        sound m.1 (m.2 ∙ trimmed)

  -- When `install` of a version fails in `copyFile`, and VERSION held another version before, a
  -- later `install` of that one, without `force`, answers no error and changes no file: whatever
  -- `copyFile` left of the library stays.
  pub install-install_to :
      (version version' prefix : Bytes) (force no_verify no_verify' : Bool) (w : Computer h)
      (f : FilePath) (x : OsError) (c : Bytes)
      → (install version' prefix force no_verify w).0 ≡ err (install_to f x)
      → w.nodes (version_path prefix) ≡ some (file c)
      → trim_space c ≡ version
      → Sound (install version' prefix force no_verify w).1
      → ((install version prefix false no_verify' (install version' prefix force no_verify w).1).0
          ≡ ok tt)
        × ((install version prefix false no_verify'
              (install version' prefix force no_verify w).1).1.nodes
            ≡ (install version' prefix force no_verify w).1.nodes)
  install-install_to version version' prefix force no_verify no_verify' w f x c failed here same
        sound =
      install-present version prefix no_verify' c (install version' prefix force no_verify w).1
        (supported-install version' prefix force no_verify w
          (λ e. install_to_unsupported f x _ (sym failed ∙ e)))
        sound
        (version-kept h version' prefix force no_verify (below w.nodes) _ f x c
          (subst
            (λ r.
              Outcome h version' prefix no_verify force (below w.nodes) r
                (below (install version' prefix force no_verify w).1.nodes))
            failed (install-Outcome version' prefix force no_verify w))
          here)
        same
