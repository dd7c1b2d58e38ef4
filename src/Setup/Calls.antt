-- ===== src/Setup/Calls.antt =====
-- What the calls of the operating system do to the disk.
use zeta_go.Prelude.{
  ℕ, suc, ◌≡◌, refl, inl, inr, Bool, true, false, Option, none, some, List, [], ◌∷◌, ◌++◌,
}
use zeta_go.Prelude.Lists.{take}
use zeta_go.Machine.{Bytes}
use zeta_go.Setup.Disk.{
  Host, FilePath, joined, temporary, eq_path, parent, Node, file, directory, put_node, OsError,
  other, Computer, Answer, ok, err, S, pure, ◌>>=◌, ◌>>◌, calls, node_at, set_node, text_of, exists,
  read_file, stat, create_temp, fill, finish, remove, create, checked_create, checked_dir, make_dir,
  make_dirs,
}
use zeta_go.Setup.Rules.{
  After, After-pure, After-mono, After-attempt, eq_path_eq, But, GrownAt, Grown, put_node-But,
  GrownAt-trans,
}

module _ {h : Host} where
  -- A call that fails changes no file.
  pub calls-After :
      {A : Type 0} (P : Answer OsError A → Computer h → Type 0) (m : S h (Answer OsError A))
      (w : Computer h)
      → ((n : ℕ) (s : h.State) → P (err (other n)) (record w { env = s }))
      → ((s : h.State) → After (m (record w { env = s })) P)
      → After (calls m w) P
  unfolding calls
  calls-After P m w bad good = split (h.fault w.env).0 (h.fault w.env).1
    where
      split :
          (f : Option ℕ) (s : h.State)
          → After
              (elim f [
                | none ↦ m (record w { env = s })
                | some n ↦ (err (other n), record w { env = s })
              ])
              P
      split none s = good s
      split (some n) s = record { holds = bad n s }

  pub finish-After : (w : Computer h) → After (finish w) (λ r w'. w'.nodes ≡ w.nodes)
  unfolding finish
  finish-After w =
      calls-After (λ r w'. w'.nodes ≡ w.nodes) (pure (ok tt)) w (λ n s. refl)
        (λ s. After-pure (ok tt) (record w { env = s }) refl)

  -- Reading gives the content of a file and changes nothing.
  abbrev pub Reads : Computer h → FilePath → Answer OsError Bytes → Computer h → Type 0
  Reads w p (ok b) w' = (w'.nodes ≡ w.nodes) × (w.nodes p ≡ some (file b))
  Reads w p (err x) w' = w'.nodes ≡ w.nodes

  text_of-Reads :
      (n : Option Node) (p : FilePath) (w w' : Computer h)
      → w.nodes p ≡ n
      → w'.nodes ≡ w.nodes
      → Reads w p (text_of n) w'
  text_of-Reads none p w w' here same = same
  text_of-Reads (some (file b)) p w w' here same = (same, here)
  text_of-Reads (some directory) p w w' here same = same

  pub read_file-After : (p : FilePath) (w : Computer h) → After (read_file p w) (Reads w p)
  unfolding read_file node_at
  read_file-After p w =
      calls-After (Reads w p) (do n ← node_at p; pure (text_of n)) w (λ n s. refl)
        (λ s.
          After-pure (text_of (w.nodes p)) (record w { env = s })
            (text_of-Reads (w.nodes p) p w (record w { env = s }) refl refl))

  pub stat-After : (p : FilePath) (w : Computer h) → After (stat p w) (λ r w'. w'.nodes ≡ w.nodes)
  unfolding stat node_at
  stat-After p w =
      calls-After (λ r w'. w'.nodes ≡ w.nodes) (do n ← node_at p; pure (exists n)) w (λ n s. refl)
        (λ s. After-pure (exists (w.nodes p)) (record w { env = s }) refl)

  -- A write leaves the whole text or some of it.
  abbrev pub Fills : Computer h → FilePath → Bytes → Answer OsError (Unit {0}) → Computer h → Type 0
  Fills w p b (ok u) w' = w'.nodes ≡ put_node w.nodes p (some (file b))
  Fills w p b (err x) w' = (c : Bytes) × (w'.nodes ≡ put_node w.nodes p (some (file c)))

  pub fill-After : (p : FilePath) (b : Bytes) (w : Computer h) → After (fill p b w) (Fills w p b)
  unfolding fill
  fill-After p b w = split (h.short w.env).0 (h.short w.env).1
    where
      split :
          (f : Option (ℕ × ℕ)) (s : h.State)
          → After
              (elim f [
                | none ↦ (ok tt, record w { env = s; nodes = put_node w.nodes p (some (file b)) })
                | some (k, n) ↦ (
                  err (other n),
                  record w { env = s; nodes = put_node w.nodes p (some (file (take k b))) },
                )
              ])
              (Fills w p b)
      split none s = record { holds = refl }
      split (some (k, n)) s = record { holds = (take k b, refl) }

  -- `os.Create` leaves an empty file, or the disk as it is.
  abbrev pub Creates : Computer h → FilePath → Answer OsError (Unit {0}) → Computer h → Type 0
  Creates w p (ok u) w' = w'.nodes ≡ put_node w.nodes p (some (file []))
  Creates w p (err x) w' = w'.nodes ≡ w.nodes

  pub create-After : (p : FilePath) (w : Computer h) → After (create p w) (Creates w p)
  unfolding create node_at set_node
  create-After p w =
      calls-After (Creates w p) (do d ← node_at (parent p); n ← node_at p; checked_create p d n) w
        (λ n s. refl) (λ s. checked (w.nodes (parent p)) (w.nodes p) s)
    where
      checked :
          (d n : Option Node) (s : h.State)
          → After (checked_create p d n (record w { env = s })) (Creates w p)
      checked none n s = record { holds = refl }
      checked (some (file b)) n s = record { holds = refl }
      checked (some directory) (some directory) s = record { holds = refl }
      checked (some directory) (some (file b)) s = record { holds = refl }
      checked (some directory) none s = record { holds = refl }

  pub make_dir-After :
      (p : FilePath) (w : Computer h) → After (make_dir p w) (λ r w'. Grown w.nodes w'.nodes)
  unfolding make_dir node_at set_node
  make_dir-After p w = checked (w.nodes p) refl
    where
      grown :
          (q : FilePath)
          → w.nodes p ≡ none
          → (b : Bool) → eq_path p q ≡ b
          → GrownAt w.nodes (put_node w.nodes p (some directory)) q
      grown q absent true same = inr (rw (← eq_path_eq p q same) absent, rw same refl)
      grown q absent false apart = inl (put_node-But w.nodes p (some directory) q apart)

      checked :
          (n : Option Node)
          → w.nodes p ≡ n
          → After (checked_dir p n w) (λ r w'. Grown w.nodes w'.nodes)
      checked none absent =
          calls-After (λ r w'. Grown w.nodes w'.nodes)
            (do set_node p (some directory); pure (ok tt)) w (λ n s q. inl refl)
            (λ s. record { holds = λ q. grown q absent (eq_path p q) refl })
      checked (some directory) here = record { holds = λ q. inl refl }
      checked (some (file b)) here = record { holds = λ q. inl refl }

  pub make_dirs-After :
      (prefix : Bytes) (at ns : List Bytes) (w : Computer h)
      → After (make_dirs prefix at ns w) (λ r w'. Grown w.nodes w'.nodes)
  unfolding make_dirs
  make_dirs-After prefix at [] w = make_dir-After (joined prefix at) w
  make_dirs-After prefix at (n ∷ ns) w =
      After-attempt _ _ _ (make_dir-After (joined prefix at) w) (λ x w' g. g)
        (λ u w' g.
          After-mono _ (make_dirs-After prefix (at ++ (n ∷ [])) ns w')
            (λ r w'' g' q. GrownAt-trans w.nodes w'.nodes w''.nodes q (g q) (g' q)))

  -- `os.Remove` changes its file only.
  pub remove-After :
      (p : FilePath) (w : Computer h) → After (remove p w) (λ r w'. But p w.nodes w'.nodes)
  unfolding remove set_node
  remove-After p w =
      calls-After (λ r w'. But p w.nodes w'.nodes) (do set_node p none; pure (ok tt)) w
        (λ n s q apart. refl)
        (λ s. record { holds = λ q apart. put_node-But w.nodes p none q apart })

  -- `os.CreateTemp` gives a temporary file, and changes that only.
  abbrev pub Temps : Computer h → Answer OsError FilePath → Computer h → Type 0
  Temps w (ok p) w' = (i : ℕ) × (p ≡ temporary i) × But p w.nodes w'.nodes
  Temps w (err x) w' = w'.nodes ≡ w.nodes

  pub create_temp-After : (w : Computer h) → After (create_temp w) (Temps w)
  unfolding create_temp
  create_temp-After w =
      calls-After (Temps w)
        (λ w. (
          ok (temporary w.next_temp),
          record w {
            nodes = put_node w.nodes (temporary w.next_temp) (some (file []));
            next_temp = suc w.next_temp;
          },
        ))
        w (λ n s. refl)
        (λ s. record {
          holds =
              (w.next_temp, refl, put_node-But w.nodes (temporary w.next_temp) (some (file [])));
        })
