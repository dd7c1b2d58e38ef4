-- ===== src/Example/Whole.antt =====
-- The whole example: it ends, and what it has opened is freed.
use zeta_go.Prelude.{ℕ, zero, suc, ◌≤◌, ◌≡◌, refl, sym, true, Option, none, some, List, [], ◌∷◌}
use mathlib.Core.Path.{subst}
use zeta_go.Machine.{Bytes, Ptr, Platform, World, M, Heap, put, database}
use zeta_go.Machine.Rules.{Returns, Returns-returns, Returns-chain, Returns-mono}
use zeta_go.Machine.Heaps.{At, At-heap, At-self, set_go-chain}
use zeta_go.Errors.{GoError, codes, Result, ok, err}
use zeta_go.Errors.Rules.{put_same, put_fresh}
use zeta_go.Prelude.Int.{ℤ}
use zeta_go.Database.{Database}
use zeta_go.Database.Contract.{IsOpen, Halts, Creates, idle}
use zeta_go.Database.Exec.{exec-At, close-At}
use zeta_go.Database.Opens.{open_memory-Creates}
use zeta_go.Rows.{Rows, last_error, next}
use zeta_go.Rows.Protocol.{Iterates, finished, reading}
use zeta_go.Rows.Lifecycle.{Queries, query-Queries}
use zeta_go.Tx.{Tx, begin, isolation_snapshot}
use zeta_go.Tx.Lifecycle.{Transacts, over, exec-Transacts}
use zeta_go.Tx.Ending.{commit-Ended, rollback-Ended}
use zeta_go.Tx.Sessions.{Begins, begin-Begins}
use zeta_go.Schema.Lifecycle.{list_tables-At, table_info-At}
use zeta_go.Example.{
  Shown, Run, engine_version, User, create_users, insert_user, select_users, users, must, then_next,
  insert_users, show_rows, finish, describe, rows_ended, after_rows, show_users, query_users,
  commit_users, with_tx, begin_users, with_database, main,
}
use zeta_go.Example.Loop.{Shows, show_rows-Shows}

-- Unless `log.Fatal` has ended the process, the C objects are those of the heap, and the database
-- is closed.
abbrev pub Leaves : {e : Platform} → Heap → Run e → World e Database → Type 0
Leaves h (out, none) w = At h (idle none) w
Leaves h (out, some x) w = Unit {0}

over_still :
    {e : Platform} {h : Heap} {ptr : Ptr} (t : Tx) (w : World e Database)
    → t.done ≡ true
    → At h (idle ptr) w
    → Transacts h ptr t w
over_still {h = h} {ptr = ptr} t w done a =
    subst (λ b. Transacts h ptr (record { handle = t.handle; done = b }) w) (sym done)
      (over t.handle w a)

-- After an error, nothing is asked for.
module _ {e : Platform} {A : Type 0} {h : Heap} where
  must-Leaves :
      (Q : Result A → World e Database → Type 0) (out : List (Shown e)) (r : Result A)
      (k : A → M e Database (Run e)) (w : World e Database)
      → Q r w
      → ((a : A) → Q (ok a) w → Returns (k a w) (λ s. Leaves h s.0 s.1))
      → Returns (must out r k w) (λ s. Leaves h s.0 s.1)
  must-Leaves Q out (ok a) k w q good = good a q
  must-Leaves Q out (err x) k w q good = Returns-returns _ tt

-- The heap with the database that the program has opened.
abbrev opened : Heap → ℕ → Heap
opened h d = put h d (some database)

module _ {e : Platform} {h : Heap} (d : ℕ) (new : h d ≡ none) where
  finish-Leaves :
      (r : Rows) (t : Tx) (out : List (Shown e)) (names : List Bytes) (w : World e Database)
      → r.is_closed ≡ true
      → t.done ≡ true
      → At (opened h d) (idle (some d)) w
      → Returns (finish r t out names w) (λ s. Leaves h s.0 s.1)
  unfolding finish zeta_go.Rows.close
  finish-Leaves r t out names w shut done a =
      Returns-chain _ _ (table_info-At (codes "users") (some d) w (put_same h d _) a) (λ i b.
        rw (shut, zeta_go.Rows.close)
          (Returns-chain _ _ (rollback-Ended (some d) t i.1 (over_still t i.1 done b)) (λ r' c.
            Returns-chain _ _ (close-At (some d) r'.1 (put_same h d _) c.1)
              (λ r'' k. Returns-returns _ (At-heap (put_fresh h d _ new) k.1)))))

  describe-Leaves :
      (r : Rows) (t : Tx) (out : List (Shown e)) (w : World e Database)
      → r.is_closed ≡ true
      → t.done ≡ true
      → At (opened h d) (idle (some d)) w
      → Returns (describe r t out w) (λ s. Leaves h s.0 s.1)
  unfolding describe
  describe-Leaves r t out w shut done a =
      Returns-chain _ _ (list_tables-At (some d) w (put_same h d _) a) (λ l b.
        must-Leaves (λ _ w'. At (opened h d) (idle (some d)) w') out l.0 _ l.1 b
          (λ names c. finish-Leaves r t out names l.1 shut done c))

-- What the loop leaves of the iterator, unless the process ends.
abbrev Shut : {e : Platform} → Heap → Ptr → Rows × Run e → World e Database → Type 0
Shut h ptr (r, (out, none)) w = (r.is_closed ≡ true) × At h (idle ptr) w
Shut h ptr (r, (out, some x)) w = Unit {0}

Shows-Shut :
    {e : Platform} (h : Heap) (ptr : Ptr) (p : ℕ) (s : e.State) (out : List (Shown e))
    (r : Rows × Run e) (w : World e Database)
    → Shows h ptr p s out r w
    → Shut h ptr r w
Shows-Shut h ptr p s out (r, (out', none)) w (lines, k, q, left) = left
Shows-Shut h ptr p s out (r, (out', some x)) w k = tt

module _ {e : Platform} {h : Heap} (ptr : Ptr) where
  show_rows-Shut :
      (f : ℕ) (r : Rows) (out : List (Shown e)) (w : World e Database)
      → Halts e f
      → Iterates h ptr r w
      → Returns (show_rows f r out w) (λ s. Shut h ptr s.0 s.1)
  unfolding show_rows next
  show_rows-Shut zero r out w halts i = cc (halts w.engine 0)
  show_rows-Shut (suc f) r out w halts (finished s x at _ a) = Returns-returns _ (refl, a)
  show_rows-Shut (suc f) r out w halts (reading p owner row at _ new cur a) =
      Returns-mono _ (λ t b. Shows-Shut h ptr p w.engine out t.0 t.1 b)
        (show_rows-Shows ptr p owner (suc f) row at out w new (halts w.engine p) a)

module _ {e : Platform} {h : Heap} (ptr : Ptr) (o : IsOpen h ptr) (f : ℕ) (halts : Halts e f) where
  insert_users-Transacts :
      (t : Tx) (us : List (User e)) (w : World e Database)
      → Transacts h ptr t w
      → Returns (insert_users f t us w) (λ r. Transacts h ptr t r.1)
  unfolding insert_users
  insert_users-Transacts t [] w i = Returns-returns _ i
  insert_users-Transacts t (u ∷ us) w i =
      Returns-chain _ _ (exec-Transacts f ptr t insert_user _ w halts o i)
        (λ r b. inserted r.0 r.1 b (insert_users-Transacts t us r.1 b))
    where
      inserted :
          (r : Result ℤ) (w' : World e Database)
          → Transacts h ptr t w'
          → Returns (insert_users f t us w') (λ r. Transacts h ptr t r.1)
          → Returns (then_next r (insert_users f t us) w') (λ r. Transacts h ptr t r.1)
      inserted (ok n) w' b k = k
      inserted (err x) w' b k = Returns-returns _ b

module _ {e : Platform} {h : Heap} (d : ℕ) (new : h d ≡ none) (f : ℕ) (halts : Halts e f) where
  rows_ended-Leaves :
      (x : Option GoError) (out : List (Shown e)) (k : M e Database (Run e)) (w : World e Database)
      → Returns (k w) (λ s. Leaves h s.0 s.1)
      → Returns (rows_ended x out k w) (λ s. Leaves h s.0 s.1)
  rows_ended-Leaves none out k w r = r
  rows_ended-Leaves (some x) out k w r = Returns-returns _ tt

  after_rows-Leaves :
      (t : Tx) (s : Rows × Run e) (w : World e Database)
      → t.done ≡ true
      → Shut (opened h d) (some d) s w
      → Returns (after_rows t s w) (λ r. Leaves h r.0 r.1)
  unfolding after_rows
  after_rows-Leaves t (r, (out, some x)) w done b = Returns-returns _ tt
  after_rows-Leaves t (r, (out, none)) w done (shut, a) =
      rows_ended-Leaves (last_error r) out _ w (describe-Leaves d new r t out w shut done a)

  query_users-Leaves :
      (out : List (Shown e)) (t : Tx) (w : World e Database)
      → t.done ≡ true
      → At (opened h d) (idle (some d)) w
      → Returns (query_users f out t w) (λ r. Leaves h r.0 r.1)
  unfolding query_users show_users
  query_users-Leaves out t w done a =
      Returns-chain _ _ (query-Queries (some d) select_users [] w (put_same h d _) a) (λ q b.
        must-Leaves (Queries (opened h d) (some d)) out q.0 _ q.1 b (λ r i.
          Returns-chain _ _ (show_rows-Shut (some d) f r _ q.1 halts i)
            (λ s k. after_rows-Leaves t s.0 s.1 done k)))

  commit_users-Leaves :
      (out : List (Shown e)) (t : Tx) (w : World e Database)
      → Transacts (opened h d) (some d) t w
      → Returns (commit_users f out t w) (λ r. Leaves h r.0 r.1)
  unfolding commit_users
  commit_users-Leaves out t w i = Returns-chain _ _ (commit-Ended (some d) t w i) (λ c b.
      must-Leaves (λ _ w'. At (opened h d) (idle (some d)) w') out c.0.0 _ c.1 b.1
        (λ _ k. query_users-Leaves out c.0.1 c.1 b.0 k))

  begin_users-Leaves :
      (one : e.Float) (out : List (Shown e)) (w : World e Database)
      → At (opened h d) (idle (some d)) w
      → Returns (begin_users one f out w) (λ r. Leaves h r.0 r.1)
  unfolding begin_users begin with_tx
  begin_users-Leaves one out w a =
      Returns-chain _ _ (begin-Begins (some d) isolation_snapshot w (put_same h d _) a) (λ t b.
        must-Leaves (Begins (opened h d) (some d)) out t.0 _ t.1 b (λ x i.
          Returns-chain _ _
            (insert_users-Transacts (some d) (put_same h d _) f halts x (users one) t.1 i)
            (λ r k.
              must-Leaves (λ _ w'. Transacts (opened h d) (some d) x w') out r.0 _ r.1 k
                (λ _ m. commit_users-Leaves out x r.1 m))))

  with_database-Leaves :
      (one : e.Float) (out : List (Shown e)) (g : Database) (w : World e Database)
      → At (opened h d) g w
      → Returns (with_database one f out (some d) w) (λ r. Leaves h r.0 r.1)
  unfolding with_database
  with_database-Leaves one out g w a = set_go-chain w a (idle (some d)) _ (λ w1 b.
      Returns-chain _ _ (exec-At f (some d) create_users [] w1 halts (put_same h d _) b) (λ c k.
        must-Leaves (λ _ w'. At (opened h d) (idle (some d)) w') out c.0 _ c.1 k
          (λ _ m. begin_users-Leaves one out c.1 m)))

-- From any world in which the later names are unused, the example ends, if every statement ends
-- within the fuel: no C function is called outside its contract, no mutex is waited for, and, unless
-- an error has made it end by `log.Fatal`, every C object that it has opened is freed and the
-- database is closed.
pub main-Leaves :
    {e : Platform} (one : e.Float) (f : ℕ) (w : World e Database)
    → Halts e f
    → ((q : ℕ) → w.next ≤ q → w.heap q ≡ none)
    → Returns (main one f w) (λ r. Leaves w.heap r.0 r.1)
unfolding main
main-Leaves {e} one f w halts fresh =
    Returns-chain _ _ (open_memory-Creates w (At-self w fresh)) (λ p b.
      must-Leaves (Creates w.heap w.go database) (engine_version e.version ∷ []) p.0 _ p.1 b
        (λ q c. opens q p.1 c))
  where
    opens :
        (q : Ptr) (w1 : World e Database)
        → Creates w.heap w.go database (ok q) w1
        → Returns
            (with_database one f (engine_version e.version ∷ []) q w1)
            (λ r. Leaves w.heap r.0 r.1)
    opens none w1 c = absurd c
    opens (some d) w1 (new, a) =
        with_database-Leaves d new f halts one (engine_version e.version ∷ []) w.go w1 a
