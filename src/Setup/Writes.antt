-- ===== src/Setup/Writes.antt =====
-- `copyFile` and `os.WriteFile`: what they leave at the path that they write.
use zeta_go.Prelude.{◌≡◌, refl, ap, ◌∙◌, false, Option, some, []}
use zeta_go.Machine.{Bytes}
use zeta_go.Setup.Disk.{
  Host, FilePath, eq_path, Node, file, Nodes, put_node, OsError, Computer, Answer, ok, err, node_at,
  fill, finish,
}
use zeta_go.Setup.Install.{copy, copy_file, write_file}
use zeta_go.Setup.Rules.{After, After-mono, After-attempt, But, put_node-But, put_node_self}
use zeta_go.Setup.Calls.{stat-After, create-After, Creates, fill-After, Fills, finish-After}

-- A write that succeeds leaves the whole text; in any case no other path changes.
abbrev pub Writes :
    {h : Host} → Nodes → FilePath → Bytes → Answer OsError (Unit {0}) → Computer h → Type 0
Writes t p b (ok u) w = (w.nodes p ≡ some (file b)) × But p t w.nodes
Writes t p b (err x) w = But p t w.nodes

But-put : (p : FilePath) (t u : Nodes) (n : Option Node) → But p t u → But p t (put_node u p n)
But-put p t u n b q apart = put_node-But u p n q apart ∙ b q apart

pub But-same : (p : FilePath) (t u v : Nodes) → But p t u → v ≡ u → But p t v
But-same p t u v b same q apart = ap (λ (m : Nodes). m q) same ∙ b q apart

module _ {h : Host} (t : Nodes) (p : FilePath) (b : Bytes) where
  -- `Close` and `Chmod` after the write.
  finish-Writes :
      (w : Computer h)
      → w.nodes p ≡ some (file b)
      → But p t w.nodes
      → After (finish w) (Writes t p b)
  finish-Writes w here but = After-mono _ (finish-After w) (λ r w' same. done r w' same)
    where
      done :
          (r : Answer OsError (Unit {0})) (w' : Computer h) → w'.nodes ≡ w.nodes → Writes t p b r w'
      done (ok u) w' same =
          (ap (λ (m : Nodes). m p) same ∙ here, But-same p t w.nodes w'.nodes but same)
      done (err x) w' same = But-same p t w.nodes w'.nodes but same

  -- Filling an empty file.
  fill-Writes : (w : Computer h) → But p t w.nodes → After (fill p b w) (Writes t p b)
  fill-Writes w but = After-mono _ (fill-After p b w) (λ r w' f. done r w' f)
    where
      filled :
          (n : Option Node) (w' : Computer h) → w'.nodes ≡ put_node w.nodes p n → But p t w'.nodes
      filled n w' same =
          But-same p t (put_node w.nodes p n) w'.nodes (But-put p t w.nodes n but) same

      done :
          (r : Answer OsError (Unit {0})) (w' : Computer h) → Fills w p b r w' → Writes t p b r w'
      done (ok u) w' same = (
        ap (λ (m : Nodes). m p) same ∙ put_node_self w.nodes p (some (file b)),
        filled (some (file b)) w' same,
      )
      done (err x) w' (c, same) = filled (some (file c)) w' same

module _ {h : Host} (p : FilePath) where
  created-But :
      (w : Computer h) (r : Answer OsError (Unit {0})) (w' : Computer h)
      → Creates w p r w'
      → But p w.nodes w'.nodes
  created-But w (ok u) w' same =
      But-same p w.nodes (put_node w.nodes p (some (file []))) w'.nodes
        (put_node-But w.nodes p (some (file []))) same
  created-But w (err x) w' same = But-same p w.nodes w.nodes w'.nodes (λ q apart. refl) same

  pub write_file-Writes :
      (b : Bytes) (w : Computer h) → After (write_file p b w) (Writes w.nodes p b)
  unfolding write_file
  write_file-Writes b w =
      After-attempt _ _ _ (create-After p w) (λ x w' c. created-But w (err x) w' c)
        (λ u w' c.
          After-attempt _ _ _ (fill-Writes w.nodes p b w' (created-But w (ok u) w' c))
            (λ x w'' k. k) (λ v w'' k. finish-Writes w.nodes p b w'' k.0 k.1))

  -- `copyFile` of a file that holds `b` to another path.
  pub copy_file-Writes :
      (src : FilePath) (b : Bytes) (w : Computer h)
      → w.nodes src ≡ some (file b)
      → eq_path p src ≡ false
      → After (copy_file src p w) (Writes w.nodes p b)
  unfolding copy_file copy node_at
  copy_file-Writes src b w here apart =
      After-attempt _ _ _ (stat-After src w)
        (λ x w' same. But-same p w.nodes w.nodes w'.nodes (λ q _. refl) same)
        (λ u w' same.
          After-attempt _ _ _ (create-After p w')
            (λ x w2 c. opened w' same w2 (created-But w' (err x) w2 c))
            (λ u2 w2 c.
              After-attempt _ _ _ (copied w2 (opened w' same w2 (created-But w' (ok u2) w2 c)))
                (λ x v k. k)
                (λ u3 v k.
                  After-attempt _ _ _ (finish-Writes w.nodes p b v k.0 k.1) (λ x z m. m)
                    (λ u4 z m. finish-Writes w.nodes p b z m.0 m.1))))
    where
      opened :
          (w' : Computer h)
          → w'.nodes ≡ w.nodes
          → (w2 : Computer h) → But p w'.nodes w2.nodes
          → But p w.nodes w2.nodes
      opened w' same w2 but q other = but q other ∙ ap (λ (m : Nodes). m q) same

      copied : (v : Computer h) → But p w.nodes v.nodes → After (copy src p v) (Writes w.nodes p b)
      copied v but = rw (but src apart ∙ here, copy) (fill-Writes w.nodes p b v but)
