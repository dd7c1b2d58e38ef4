-- ===== src/Setup/Disk.antt =====
-- The computer that the installer runs on: a disk, and an environment that decides which calls of
-- the operating system fail and what the network answers.
use zeta_go.Prelude.{
  ℕ, suc, ◌==◌, Bool, true, false, ◌&&◌, not, Option, none, some, List, [], ◌∷◌, ◌++◌,
  if◌then◌else◌,
}
use zeta_go.Prelude.Lists.{eq_bytes, take}
use zeta_go.Machine.{Bytes}

-- What `http.Get` and reading the body give: no connection, or a status, the bytes that arrive, and
-- the error that ends them.
pub data Fetch : Type 0 where
  unreachable : ℕ → Fetch
  response : ℕ → Bytes → Option ℕ → Fetch

-- A path below a prefix, by the names that filepath.Join puts behind it, or a file of os.CreateTemp.
pub data FilePath : Type 0 where
  joined : Bytes → List Bytes → FilePath
  temporary : ℕ → FilePath

-- The operating system and the network, functions of the environment's state, and what the program
-- was built for. Errors are numbers.
pub record Host : Type 1 where
  pub State : Type 0
  -- whether the next call fails
  pub fault : State → Option ℕ × State
  -- whether the next write stops early: after how many bytes, with which error
  pub short : State → Option (ℕ × ℕ) × State
  pub fetch : State → Bytes → Fetch × State
  -- what a removal that fails leaves
  pub survives : State → FilePath → Bool
  pub goos : Bytes
  pub goarch : Bytes
  -- crypto/sha256
  pub sha256 : Bytes → Bytes

abbrev pub eq_names : List Bytes → List Bytes → Bool
eq_names [] [] = true
eq_names (a ∷ as') (b ∷ bs) = eq_bytes a b && eq_names as' bs
eq_names _ _ = false

abbrev pub eq_path : FilePath → FilePath → Bool
eq_path (joined p ns) (joined q ms) = eq_names ns ms && eq_bytes p q
eq_path (temporary i) (temporary j) = i == j
eq_path _ _ = false

abbrev init : List Bytes → List Bytes
init [] = []
init (n ∷ []) = []
init (n ∷ m ∷ ns) = n ∷ init (m ∷ ns)

-- The directory that a path lies in.
abbrev pub parent : FilePath → FilePath
parent (joined p ns) = joined p (init ns)
parent (temporary i) = temporary i

-- Whether the names begin with those of a directory.
abbrev pub begins_with : List Bytes → List Bytes → Bool
begins_with [] ms = true
begins_with (n ∷ ns) [] = false
begins_with (n ∷ ns) (m ∷ ms) = eq_bytes n m && begins_with ns ms

-- A directory, or what lies in it.
abbrev pub inside : FilePath → FilePath → Bool
inside (joined p ns) (joined q ms) = begins_with ns ms && eq_bytes p q
inside (temporary i) (temporary j) = i == j
inside _ _ = false

pub data Node : Type 0 where
  file : Bytes → Node
  directory : Node

abbrev pub Nodes : Type 0
Nodes = FilePath → Option Node

abbrev pub put_node : Nodes → FilePath → Option Node → Nodes
put_node t p n q = if eq_path p q then n else t q

pub data OsError : Type 0 where
  not_exist is_directory not_directory : OsError
  other : ℕ → OsError

-- What the program prints.
pub data Notice : Type 0 where
  already_installed : Bytes → FilePath → Notice
  downloading verifying : Bytes → Notice
  installed : Bytes → FilePath → Notice
  foreign_prefix : FilePath → Notice
  nothing_to_remove removed : FilePath → Notice
  -- the text of the `version` command
  shows : Bytes → Notice

pub record Computer (h : Host) : Type 0 where
  pub env : h.State
  pub nodes : Nodes
  pub next_temp : ℕ
  pub printed : List Notice

-- `(value, error)` of a call of the operating system
pub data Answer (X A : Type 0) : Type 0 where
  ok : A → Answer X A
  err : X → Answer X A

abbrev pub text_of : Option Node → Answer OsError Bytes
text_of none = err not_exist
text_of (some (file b)) = ok b
text_of (some directory) = err is_directory

abbrev pub exists : Option Node → Answer OsError (Unit {0})
exists none = err not_exist
exists (some n) = ok tt

abbrev pub S : Host → Type 0 → Type 0
S h A = Computer h → A × Computer h

module _ {h : Host} where
  abbrev pub pure : {A : Type 0} → A → S h A
  pure a w = (a, w)

  infixl 5 ◌>>=◌ ◌>>◌
  abbrev pub ◌>>=◌ : {A B : Type 0} → S h A → (A → S h B) → S h B
  ◌>>=◌ m f w = f (m w).0 (m w).1

  abbrev pub ◌>>◌ : {A B : Type 0} → S h A → S h B → S h B
  m >> n = m >>= λ _. n

  -- `if err != nil { return fmt.Errorf(…, err) }`: `wrap` makes the error that is returned.
  abbrev pub continue :
      {X Y A B : Type 0} → (X → Y) → Answer X A → (A → S h (Answer Y B)) → S h (Answer Y B)
  continue wrap (ok a) k = k a
  continue wrap (err x) k = pure (err (wrap x))

  abbrev pub attempt :
      {X Y A B : Type 0} → S h (Answer X A) → (X → Y) → (A → S h (Answer Y B)) → S h (Answer Y B)
  attempt m wrap k = do r ← m; continue wrap r k

  abbrev pub deferring : {A B : Type 0} → S h B → S h A → S h A
  deferring fin body = do r ← body; fin; pure r

  unfoldable pub say : Notice → S h (Unit {0})
  say n w = (tt, record w { printed = w.printed ++ (n ∷ []) })

  -- A call of the operating system that may fail before it does anything.
  unfoldable pub calls : {A : Type 0} → S h (Answer OsError A) → S h (Answer OsError A)
  calls m w =
      let (f, s) = h.fault w.env in
      let w' = record w { env = s } in elim f [ none ↦ m w' | some n ↦ (err (other n), w') ]

  unfoldable pub node_at : FilePath → S h (Option Node)
  node_at p w = (w.nodes p, w)

  unfoldable pub set_node : FilePath → Option Node → S h (Unit {0})
  set_node p n w = (tt, record w { nodes = put_node w.nodes p n })

  -- `os.ReadFile`, and `os.Open` with the reading of the file
  unfoldable pub read_file : FilePath → S h (Answer OsError Bytes)
  unfolding calls node_at
  read_file p = calls (do n ← node_at p; pure (text_of n))

  unfoldable pub stat : FilePath → S h (Answer OsError (Unit {0}))
  unfolding calls node_at
  stat p = calls (do n ← node_at p; pure (exists n))

  -- `os.CreateTemp`: a name that no file has had.
  unfoldable pub create_temp : S h (Answer OsError FilePath)
  unfolding calls
  create_temp = calls (λ w. (
    ok (temporary w.next_temp),
    record w {
      nodes = put_node w.nodes (temporary w.next_temp) (some (file []));
      next_temp = suc w.next_temp;
    },
  ))

  -- Bytes go to an empty file, all of them or the first few and an error.
  unfoldable pub fill : FilePath → Bytes → S h (Answer OsError (Unit {0}))
  fill p b w =
      let (f, s) = h.short w.env in
      elim f [
        | none ↦ (ok tt, record w { env = s; nodes = put_node w.nodes p (some (file b)) })
        | some (k, n) ↦ (
          err (other n),
          record w { env = s; nodes = put_node w.nodes p (some (file (take k b))) },
        )
      ]

  -- `Close`, `Chmod`: nothing changes that is modelled.
  unfoldable pub finish : S h (Answer OsError (Unit {0}))
  unfolding calls
  finish = calls (pure (ok tt))

  -- `os.Remove`
  unfoldable pub remove : FilePath → S h (Answer OsError (Unit {0}))
  unfolding calls set_node
  remove p = calls (do set_node p none; pure (ok tt))

  unfoldable pub http_get : Bytes → S h Fetch
  http_get url w = let (f, s) = h.fetch w.env url in (f, record w { env = s })

  abbrev pub checked_create : FilePath → Option Node → Option Node → S h (Answer OsError (Unit {0}))
  checked_create p none n = pure (err not_exist)
  checked_create p (some (file b)) n = pure (err not_directory)
  checked_create p (some directory) (some directory) = pure (err is_directory)
  checked_create p (some directory) n = do set_node p (some (file [])); pure (ok tt)

  -- `os.Create` in a directory: the file is empty then.
  unfoldable pub create : FilePath → S h (Answer OsError (Unit {0}))
  unfolding calls node_at set_node
  create p = calls (do d ← node_at (parent p); n ← node_at p; checked_create p d n)

  abbrev pub checked_dir : FilePath → Option Node → S h (Answer OsError (Unit {0}))
  checked_dir p none = calls (do set_node p (some directory); pure (ok tt))
  checked_dir p (some directory) = pure (ok tt)
  checked_dir p (some (file b)) = pure (err not_directory)

  unfoldable pub make_dir : FilePath → S h (Answer OsError (Unit {0}))
  unfolding calls node_at set_node
  make_dir p = do n ← node_at p; checked_dir p n

  -- `os.MkdirAll`: the directories `ns` below `at`, the outer ones first.
  unfoldable pub make_dirs : Bytes → List Bytes → List Bytes → S h (Answer OsError (Unit {0}))
  unfolding make_dir
  make_dirs p at [] w = make_dir (joined p at) w
  make_dirs p at (n ∷ ns) w =
      attempt (make_dir (joined p at)) (λ x. x) (λ _. make_dirs p (at ++ (n ∷ [])) ns) w

  -- `os.RemoveAll` of a directory and all that lies in it.
  unfoldable pub remove_all : FilePath → S h (Answer OsError (Unit {0}))
  remove_all p w =
      let (f, s) = h.fault w.env in
      elim f [
        | none ↦ (ok tt, record w { env = s; nodes = λ q. if inside p q then none else w.nodes q })
        | some n ↦ (
          err (other n),
          record w {
            env = s;
            nodes = λ q. if inside p q && not (h.survives w.env q) then none else w.nodes q;
          },
        )
      ]
