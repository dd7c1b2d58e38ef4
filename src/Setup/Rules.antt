-- ===== src/Setup/Rules.antt =====
-- Rules for what holds after an action of the installer.
use zeta_go.Prelude.{
  ◌≡◌, refl, sym, ◌∙◌, ◌⊎◌, inl, inr, true, false, Option, none, some, List, [], ◌∷◌, arith,
}
use zeta_go.Prelude.Lists.{eq_bytes_refl, eq_bytes_eq}
use zeta_go.Machine.{Bytes}
use zeta_go.Setup.Disk.{
  Host, FilePath, joined, temporary, eq_names, eq_path, Node, directory, Nodes, put_node, Computer,
  Answer, ok, err, S, pure, continue,
}

pub record After {h : Host} {A : Type 0} (r : A × Computer h) (P : A → Computer h → Type 0)
    : Type 0 where
  pub holds : P r.0 r.1

module _ {h : Host} {A : Type 0} {P : A → Computer h → Type 0} where
  pub After-pure : (a : A) (w : Computer h) → P a w → After (pure a w) P
  After-pure a w p = record { holds = p }

module _ {h : Host} {A : Type 0} {P Q : A → Computer h → Type 0} where
  pub After-mono :
      (r : A × Computer h) → After r Q → ((a : A) (w : Computer h) → Q a w → P a w) → After r P
  After-mono r a f = record { holds = f r.0 r.1 a.holds }

module _ {h : Host} {A B : Type 0} {Q : A → Computer h → Type 0} {P : B → Computer h → Type 0} where
  pub After-bind :
      (r : A × Computer h) (f : A → S h B)
      → After r Q
      → ((a : A) (w : Computer h) → Q a w → After (f a w) P)
      → After (f r.0 r.1) P
  After-bind r f a next = next r.0 r.1 a.holds

module _ {h : Host} {X Y A B : Type 0} {Q : Answer X A → Computer h → Type 0}
    {P : Answer Y B → Computer h → Type 0} where
  pub After-attempt :
      (r : Answer X A × Computer h) (wrap : X → Y) (k : A → S h (Answer Y B))
      → After r Q
      → ((x : X) (w : Computer h) → Q (err x) w → P (err (wrap x)) w)
      → ((a : A) (w : Computer h) → Q (ok a) w → After (k a w) P)
      → After (continue wrap r.0 k r.1) P
  After-attempt (ok b, w) wrap k a bad good = good b w a.holds
  After-attempt (err x, w) wrap k a bad good = record { holds = bad x w a.holds }

-- A path is one that it is tested against.
pub eq_path_refl : (p : FilePath) → eq_path p p ≡ true
eq_path_refl (joined p ns) = ground (arith, eq_bytes_refl p, eq_names_refl ns)
  where
    eq_names_refl : (ms : List Bytes) → eq_names ms ms ≡ true
    eq_names_refl [] = refl
    eq_names_refl (m ∷ ms) = ground (arith, eq_bytes_refl m, eq_names_refl ms)
eq_path_refl (temporary i) = ground arith

eq_names_eq : (ns ms : List Bytes) → eq_names ns ms ≡ true → ns ≡ ms
eq_names_eq [] [] h = refl
eq_names_eq [] (m ∷ ms) h = cc
eq_names_eq (n ∷ ns) [] h = cc
eq_names_eq (n ∷ ns) (m ∷ ms) h = ground (arith, eq_bytes_eq n m, eq_names_eq ns ms)

pub eq_path_eq : (p q : FilePath) → eq_path p q ≡ true → p ≡ q
eq_path_eq (joined p ns) (joined q ms) h = ground (arith, eq_bytes_eq p q, eq_names_eq ns ms)
eq_path_eq (joined p ns) (temporary j) h = cc
eq_path_eq (temporary i) (joined q ms) h = cc
eq_path_eq (temporary i) (temporary j) h = ground arith

-- Nothing has changed but what is at a path.
abbrev pub But : FilePath → Nodes → Nodes → Type 0
But p t t' = (q : FilePath) → eq_path p q ≡ false → t' q ≡ t q

-- Directories have been made where nothing was.
abbrev pub Grows : Option Node → Option Node → Type 0
Grows n n' = (n' ≡ n) ⊎ ((n ≡ none) × (n' ≡ some directory))

abbrev pub GrownAt : Nodes → Nodes → FilePath → Type 0
GrownAt t t' q = Grows (t q) (t' q)

abbrev pub Grown : Nodes → Nodes → Type 0
Grown t t' = (q : FilePath) → GrownAt t t' q

pub put_node-But : (t : Nodes) (p : FilePath) (n : Option Node) → But p t (put_node t p n)
put_node-But t p n q apart = rw apart refl

pub put_node_self : (t : Nodes) (p : FilePath) (n : Option Node) → put_node t p n p ≡ n
put_node_self t p n = rw (eq_path_refl p) refl

pub GrownAt-trans : (s t u : Nodes) (q : FilePath) → GrownAt s t q → GrownAt t u q → GrownAt s u q
GrownAt-trans s t u q (inl a) (inl b) = inl (b ∙ a)
GrownAt-trans s t u q (inl a) (inr (b, c)) = inr (sym a ∙ b, c)
GrownAt-trans s t u q (inr (a, b)) (inl c) = inr (a, c ∙ b)
GrownAt-trans s t u q (inr (a, b)) (inr (c, d)) = inr (a, d)

-- What is at a path stays when only directories are made.
pub GrownAt-some :
    (s t : Nodes) (q : FilePath) (n : Node) → s q ≡ some n → GrownAt s t q → t q ≡ some n
GrownAt-some s t q n here (inl a) = a ∙ here
GrownAt-some s t q n here (inr (a, b)) = cc
