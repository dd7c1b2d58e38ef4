-- ===== src/Setup/Uninstalls.antt =====
-- What `uninstall` leaves.
use mathlib.Core.Path.{subst}
use zeta_go.Prelude.{
  ℕ, ◌≡◌, ◌⊎◌, inl, inr, refl, sym, ◌∙◌, Bool, true, false, ◌&&◌, not, Option, none, some,
  if◌then◌else◌,
}
use zeta_go.Prelude.Lists.{eq_bytes_refl}
use zeta_go.Machine.{Bytes}
use zeta_go.Setup.Disk.{
  Host, FilePath, inside, Node, directory, Nodes, OsError, not_exist, is_directory, not_directory,
  other, Computer, Answer, ok, err, pure, ◌>>=◌, exists, calls, node_at, stat, remove_all,
  read_file, say,
}
use zeta_go.Setup.Names.{SetupError, remove_failed, not_installed, target_dir, version_path}
use zeta_go.Setup.Commands.{remove_dir, uninstall_at, uninstall, installed_version}
use zeta_go.Setup.Rules.{After, After-pure, After-bind, After-attempt}
use zeta_go.Setup.Calls.{calls-After}
use zeta_go.Setup.Versions.{Sound}

-- Nothing was there, or all that was in a directory is gone and nothing else has changed. An error
-- of the removal leaves the rest as it was, and of what was in the directory some.
abbrev pub Uninstalls : Bytes → Nodes → Answer SetupError (Unit {0}) → Nodes → Type 0
Uninstalls prefix t (ok u) t' =
    ((t (target_dir prefix) ≡ none) × (t' ≡ t))
    ⊎ ((q : FilePath) → t' q ≡ (if inside (target_dir prefix) q then none else t q))
Uninstalls prefix t (err (remove_failed d x)) t' =
    (q : FilePath) → (t' q ≡ t q) ⊎ ((inside (target_dir prefix) q ≡ true) × (t' q ≡ none))
Uninstalls prefix t (err _) t' = ⊥

-- VERSION lies in the directory.
version-gone :
    (prefix : Bytes) (t t' : Nodes)
    → t (target_dir prefix) ≡ some directory
    → Uninstalls prefix t (ok tt) t'
    → t' (version_path prefix) ≡ none
version-gone prefix t t' there (inl (absent, same)) = absurd (some_none (sym there ∙ absent))
  where
    some_none : ◌≡◌ {A = Option Node} (some directory) none → ⊥
    some_none e = cc
version-gone prefix t t' there (inr gone) =
    gone (version_path prefix) ∙ rw (eq_bytes_refl prefix) refl

module _ {h : Host} where
  abbrev Found : Computer h → FilePath → Answer OsError (Unit {0}) → Computer h → Type 0
  Found w p (err not_exist) w' = (w.nodes p ≡ none) × (w'.nodes ≡ w.nodes)
  Found w p _ w' = w'.nodes ≡ w.nodes

  stat-Found : (p : FilePath) (w : Computer h) → After (stat p w) (Found w p)
  unfolding stat node_at
  stat-Found p w =
      calls-After (Found w p) (do n ← node_at p; pure (exists n)) w (λ n s. refl)
        (λ s. there (w.nodes p) s refl)
    where
      there :
          (n : Option Node) (s : h.State)
          → w.nodes p ≡ n
          → After (pure (exists n) (record w { env = s })) (Found w p)
      there none s absent = After-pure _ _ (absent, refl)
      there (some n) s here = After-pure _ _ refl

  abbrev Removes : Computer h → FilePath → Answer OsError (Unit {0}) → Computer h → Type 0
  Removes w p (ok u) w' = (q : FilePath) → w'.nodes q ≡ (if inside p q then none else w.nodes q)
  Removes w p (err x) w' =
      (q : FilePath) → (w'.nodes q ≡ w.nodes q) ⊎ ((inside p q ≡ true) × (w'.nodes q ≡ none))

  remove_all-Removes : (p : FilePath) (w : Computer h) → After (remove_all p w) (Removes w p)
  unfolding remove_all
  remove_all-Removes p w = split (h.fault w.env).0 (h.fault w.env).1
    where
      kept :
          (i s : Bool) (n : Option Node)
          → ((if i && not s then none else n) ≡ n)
            ⊎ ((i ≡ true) × ((if i && not s then none else n) ≡ none))
      kept true true n = inl refl
      kept true false n = inr (refl, refl)
      kept false s n = inl refl

      split :
          (f : Option ℕ) (s : h.State)
          → After
              (elim f [
                | none ↦ (
                  ok tt,
                  record w { env = s; nodes = λ q. if inside p q then none else w.nodes q },
                )
                | some n ↦ (
                  err (other n),
                  record w {
                    env = s;
                    nodes = λ q. if inside p q && not (h.survives w.env q) then none else w.nodes q;
                  },
                )
              ])
              (Removes w p)
      split none s = record { holds = λ q. refl }
      split (some n) s = record { holds = λ q. kept (inside p q) (h.survives w.env q) (w.nodes q) }

  remove_dir-Uninstalls :
      (prefix : Bytes) (w : Computer h)
      → After (remove_dir prefix w) (λ r w'. Uninstalls prefix w.nodes r w'.nodes)
  unfolding remove_dir say
  remove_dir-Uninstalls prefix w =
      After-attempt _ _ _ (remove_all-Removes (target_dir prefix) w) (λ x w' k. k)
        (λ u w' k. record { holds = inr k })

  removes :
      (prefix : Bytes) (w w' : Computer h)
      → w'.nodes ≡ w.nodes
      → After (remove_dir prefix w') (λ r w2. Uninstalls prefix w.nodes r w2.nodes)
  removes prefix w w' same =
      subst (λ t. After (remove_dir prefix w') (λ r w2. Uninstalls prefix t r w2.nodes)) same
        (remove_dir-Uninstalls prefix w')

  uninstall_at-Uninstalls :
      (prefix : Bytes) (w : Computer h) (r : Answer OsError (Unit {0})) (w' : Computer h)
      → Found w (target_dir prefix) r w'
      → After (uninstall_at prefix r w') (λ r w2. Uninstalls prefix w.nodes r w2.nodes)
  unfolding uninstall_at say
  uninstall_at-Uninstalls prefix w (err not_exist) w' f = record { holds = inl f }
  uninstall_at-Uninstalls prefix w (ok u) w' same = removes prefix w w' same
  uninstall_at-Uninstalls prefix w (err is_directory) w' same = removes prefix w w' same
  uninstall_at-Uninstalls prefix w (err not_directory) w' same = removes prefix w w' same
  uninstall_at-Uninstalls prefix w (err (other n)) w' same = removes prefix w w' same

  -- Whatever the operating system answers, `uninstall` answers no error only if the directory was
  -- not there and nothing has changed, or if all that was in it is gone and no other path has
  -- changed; its only error is that of the removal, and then nothing but a part of what was in
  -- the directory is gone.
  pub uninstall-Uninstalls :
      (prefix : Bytes) (w : Computer h)
      → Uninstalls prefix w.nodes (uninstall prefix w).0 (uninstall prefix w).1.nodes
  unfolding uninstall
  uninstall-Uninstalls prefix w =
      (After-bind _ (uninstall_at prefix) (stat-Found (target_dir prefix) w)
        (λ r w' f. uninstall_at-Uninstalls prefix w r w' f)).holds

  read_file-absent :
      (p : FilePath) (w : Computer h)
      → Sound w
      → w.nodes p ≡ none
      → (read_file p w).0 ≡ err not_exist
  unfolding read_file calls node_at
  read_file-absent p w sound absent = rw (read_file, calls, sound, absent) refl

  -- Once `uninstall` has removed the directory that was there, `version` says that nothing is
  -- installed, when VERSION can be looked for.
  pub installed_version-uninstall :
      (prefix : Bytes) (w : Computer h)
      → (uninstall prefix w).0 ≡ ok tt
      → w.nodes (target_dir prefix) ≡ some directory
      → Sound (uninstall prefix w).1
      → (installed_version prefix (uninstall prefix w).1).0
        ≡ err (not_installed (target_dir prefix))
  unfolding installed_version
  installed_version-uninstall prefix w fine there sound =
      rw
        (read_file-absent (version_path prefix) (uninstall prefix w).1 sound (
          version-gone prefix w.nodes _ there (
            subst (λ r. Uninstalls prefix w.nodes r (uninstall prefix w).1.nodes) fine
              (uninstall-Uninstalls prefix w))))
        refl
