-- ===== src/Setup/Placing.antt =====
-- The part of `install` that writes below the prefix, with a temporary file that is genuine.
use zeta_go.Prelude.{ℕ, ◌≡◌, inr, refl, ◌∙◌, Bool, true, false, not, some, [], ◌∷◌, ◌++◌}
use zeta_go.Prelude.Lists.{eq_bytes}
use zeta_go.Machine.{Bytes}
use zeta_go.Schema.{newline}
use zeta_go.Setup.Disk.{Host, joined, temporary, file, installed, Computer, Answer, ok, say}
use zeta_go.Setup.Names.{SetupError, default_prefix, lib_sub_dir, target_file, version_path}
use zeta_go.Setup.Install.{noted, announce, place}
use zeta_go.Setup.Rules.{After, After-mono, After-attempt, But, GrownAt-some, Grown}
use zeta_go.Setup.Calls.{make_dirs-After}
use zeta_go.Setup.Writes.{copy_file-Writes, write_file-Writes}
use zeta_go.Setup.Outcome.{below, Within-But, Genuine, Copied, Outcome}

module _ {h : Host} where
  say-After : (n : _) (w : Computer h) → After (say n w) (λ r w'. w'.nodes ≡ w.nodes)
  unfolding say
  say-After n w = record { holds = refl }

  announce-After :
      (version prefix : Bytes) (w : Computer h)
      → After (announce version prefix w) (λ r w'. (r ≡ ok tt) × (w'.nodes ≡ w.nodes))
  unfolding announce say
  announce-After version prefix w = decided (not (eq_bytes prefix default_prefix))
    where
      said : Computer h
      said = (say (installed version (target_file prefix)) w).1

      decided :
          (b : Bool) → After (noted prefix b said) (λ r w'. (r ≡ ok tt) × (w'.nodes ≡ w.nodes))
      decided true = record { holds = (refl, refl) }
      decided false = record { holds = (refl, refl) }

module _ {h : Host} (version prefix : Bytes) (no_verify : Bool) where
  -- What is in place after `copyFile` stays there when VERSION is written.
  pub place-Outcome :
      (force : Bool) (i : ℕ) (b : Bytes) (w : Computer h)
      → w.nodes (temporary i) ≡ some (file b)
      → Genuine h version prefix no_verify b
      → After
          (place version prefix (temporary i) w)
          (λ r w'. Outcome h version prefix no_verify force (below w.nodes) r (below w'.nodes))
  unfolding place
  place-Outcome force i b w here genuine =
      After-attempt _ _ _ (make_dirs-After prefix [] lib_sub_dir w)
        (λ x w1 g p ns. inr (g (joined p ns)))
        (λ u w1 g.
          After-attempt _ _ _
            (copy_file-Writes (target_file prefix) (temporary i) b w1
              (GrownAt-some w.nodes w1.nodes (temporary i) (file b) here (g (temporary i))) refl)
            (λ x w2 but.
              Within-But [] (below w.nodes) (target_file prefix) w1.nodes w2.nodes
                (λ p ns. inr (g (joined p ns))) but)
            (λ u2 w2 k.
              After-attempt _ _ _
                (write_file-Writes (version_path prefix) (version ++ newline ∷ []) w2)
                (λ x w3 but. copied w1 g w2 k.0 k.1 w3 but)
                (λ u3 w3 m.
                  After-mono _ (announce-After version prefix w3)
                    (λ r w4 a. announced w1 g w2 k.0 k.1 w3 m.0 m.1 r w4 a.0 a.1))))
    where
      copied :
          (w1 : Computer h)
          → Grown w.nodes w1.nodes
          → (w2 : Computer h) → w2.nodes (target_file prefix) ≡ some (file b)
          → But (target_file prefix) w1.nodes w2.nodes
          → (w3 : Computer h) → But (version_path prefix) w2.nodes w3.nodes
          → Copied h version prefix no_verify (below w.nodes) (below w3.nodes)
      copied w1 g w2 there but w3 but' = (
        b,
        genuine,
        but' (target_file prefix) refl ∙ there,
        Within-But (target_file prefix ∷ []) (below w.nodes) (version_path prefix) w2.nodes w3.nodes
            (Within-But [] (below w.nodes) (target_file prefix) w1.nodes w2.nodes
              (λ p ns. inr (g (joined p ns))) but)
            but',
      )

      announced :
          (w1 : Computer h)
          → Grown w.nodes w1.nodes
          → (w2 : Computer h) → w2.nodes (target_file prefix) ≡ some (file b)
          → But (target_file prefix) w1.nodes w2.nodes
          → (w3 : Computer h)
          → w3.nodes (version_path prefix) ≡ some (file (version ++ newline ∷ []))
          → But (version_path prefix) w2.nodes w3.nodes
          → (r : Answer SetupError (Unit {0})) (w4 : Computer h) → r ≡ ok tt
          → w4.nodes ≡ w3.nodes
          → Outcome h version prefix no_verify force (below w.nodes) r (below w4.nodes)
      announced w1 g w2 there but w3 written but' r w4 fine same =
          rw (fine, same) (inr (written, copied w1 g w2 there but w3 but'))
