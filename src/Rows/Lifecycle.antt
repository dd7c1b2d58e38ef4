-- ===== src/Rows/Lifecycle.antt =====
-- A query from `Query` to the last `Close`: nothing is left behind.
use zeta_go.Prelude.{ℕ, ◌≡◌, sym, Bool, true, false, Option, none, some, List, [], ◌∷◌}
use zeta_go.Prelude.Int.{pos}
use zeta_go.Machine.{Bytes, Ptr, Platform, World, M, pure, ◌>>=◌, ◌>>◌, Heap, put, statement}
use zeta_go.Machine.Rules.{Returns, Returns-returns, Returns-chain, Returns-mono}
use zeta_go.Machine.Heaps.{At, At-heap, At-go, get_go-chain}
use zeta_go.Capi.Rules.{zeta_finalize-Returns}
use zeta_go.Errors.{Result, ok, err}
use zeta_go.Errors.Rules.{put_fresh, put_same}
use zeta_go.Params.{Param}
use zeta_go.Params.Rules.{bind_params-Returns}
use zeta_go.Columns.{Dest}
use zeta_go.Database.{Database}
use zeta_go.Database.Contract.{Prepares, IsOpen, held, idle, prepare_locked-Returns}
use zeta_go.Database.Exec.{IsReady, IsReady-At, lock-Returns, unlock-Returns}
use zeta_go.Rows.Protocol.{Iterates, reading, Advances, next-Advances, close-Iterates}
use zeta_go.Rows.Reads.{scan-Iterates, columns-Iterates}
use zeta_go.Rows.{Rows, rows_of, start_rows, query, next, columns, scan, close}

-- What a query answers: an open iterator, or an error with nothing taken.
abbrev pub Queries : {e : Platform} → Heap → Ptr → Result Rows → World e Database → Type 0
Queries h ptr (ok r) w = Iterates h ptr r w
Queries h ptr (err x) w = At h (idle ptr) w

module _ {e : Platform} {h : Heap} (ptr : Ptr) where
  rows_of-Queries :
      (p : ℕ) (owner : Option ℕ) (b : Result (Unit {0})) (w : World e Database)
      → h p ≡ none
      → At (put h p (some (statement owner false))) (held ptr) w
      → Returns (rows_of (some p) b w) (λ r. Queries h ptr r.0 r.1)
  unfolding rows_of
  rows_of-Queries p owner (err x) w new a =
      Returns-chain _ _ (zeta_finalize-Returns w a p owner false (put_same h p _)) (λ r b.
        Returns-chain _ _ (unlock-Returns ptr r.1 (At-heap (put_fresh h p _ new) b))
          (λ r' c. Returns-returns _ c))
  rows_of-Queries p owner (ok u) w new a =
      Returns-returns _ (reading p owner false false w new (λ z. z) a)

  -- The end of `Query` and of `Tx.Query`.
  pub start_rows-Queries :
      (owner : Option ℕ) (params : List (Param e)) (s : Result Ptr) (w : World e Database)
      → Prepares h (held ptr) owner s w
      → Returns (start_rows params s w) (λ r. Queries h ptr r.0 r.1)
  unfolding start_rows
  start_rows-Queries owner params (ok none) w a = absurd a
  start_rows-Queries owner params (ok (some p)) w (new, a) =
      Returns-chain _ _ (bind_params-Returns p owner false (put_same h p _) params w a)
        (λ r b. rows_of-Queries p owner r.0 r.1 new b)
  start_rows-Queries owner params (err x) w a =
      Returns-chain _ _ (unlock-Returns ptr w a) (λ r b. Returns-returns _ b)

module _ {e : Platform} {h : Heap} where
  pub query-Queries :
      (ptr : Ptr) (sql : Bytes) (params : List (Param e)) (w : World e Database)
      → IsOpen h ptr
      → At h (idle ptr) w
      → Returns (query sql params w) (λ r. Queries h ptr r.0 r.1)
  unfolding query
  query-Queries none sql params w o a = Returns-chain _ _ (lock-Returns none w a) (λ r b.
      get_go-chain r.1 b _
        (Returns-chain _ _ (unlock-Returns none r.1 b) (λ r' c. Returns-returns _ c)))
  query-Queries (some d) sql params w o a = Returns-chain _ _ (lock-Returns (some d) w a) (λ r b.
      get_go-chain r.1 b _ (
        Returns-chain _ _ (prepare_locked-Returns h d o sql r.1 b)
          (λ r' c. start_rows-Queries (some d) none params r'.0 r'.1 c)))

-- The calls that a client can make of an iterator.
pub data Call : Type 0 where
  nexts names closes : Call
  scans : List Dest → Call

module _ {e : Platform} where
  unfoldable pub call : Call → Rows → M e Database Rows
  call nexts r = do b ← next r; pure b.1
  call names r = do columns r; pure r
  call closes r = close r
  call (scans dest) r = do scan r dest; pure r

  unfoldable pub calls : List Call → Rows → M e Database Rows
  calls [] r w = pure r w
  calls (c ∷ cs) r w = (call c r >>= calls cs) w

-- The engine never counts a negative number of columns.
abbrev pub Counts : Platform → Type 0
Counts e = (s : e.State) (p : ℕ) → (n : ℕ) × (e.column_count s p ≡ pos n)

module _ {e : Platform} {h : Heap} (ptr : Ptr) (counts : Counts e) where
  Iterates-Advances :
      (b : Bool) (r : Rows) (w : World e Database) → Advances h ptr b r w → Iterates h ptr r w
  Iterates-Advances true r w a = a.1
  Iterates-Advances false r w a = a.2

  pub call-Iterates :
      (c : Call) (r : Rows) (w : World e Database)
      → Iterates h ptr r w
      → Returns (call c r w) (λ r'. Iterates h ptr r'.0 r'.1)
  unfolding call
  call-Iterates nexts r w i =
      Returns-chain _ _ (next-Advances ptr r w i)
        (λ r' b. Returns-returns _ (Iterates-Advances r'.0.0 r'.0.1 r'.1 b))
  call-Iterates names r w i =
      Returns-chain _ _ (columns-Iterates ptr r w counts i) (λ r' b. Returns-returns _ b)
  call-Iterates closes r w i = Returns-mono _ (λ r' b. b.2) (close-Iterates ptr r w i)
  call-Iterates (scans dest) r w i =
      Returns-chain _ _ (scan-Iterates ptr r dest w i) (λ r' b. Returns-returns _ b)

  -- Any calls in any order keep the protocol.
  pub calls-Iterates :
      (cs : List Call) (r : Rows) (w : World e Database)
      → Iterates h ptr r w
      → Returns (calls cs r w) (λ r'. Iterates h ptr r'.0 r'.1)
  unfolding calls
  calls-Iterates [] r w i = Returns-returns _ i
  calls-Iterates (c ∷ cs) r w i =
      Returns-chain _ _ (call-Iterates c r w i) (λ r' b. calls-Iterates cs r'.0 r'.1 b)

module _ {e : Platform} where
  -- `defer rows.Close()` around calls, after a query that may have failed.
  unfoldable pub use_rows : List Call → Result Rows → M e Database (Unit {0})
  use_rows cs (ok r) = do r' ← calls cs r; close r'; pure tt
  use_rows cs (err x) = pure tt

module _ {e : Platform} {h : Heap} (ptr : Ptr) (counts : Counts e) where
  -- Once the iterator is closed, the C objects are those without its statement.
  pub use_rows-At :
      (cs : List Call) (s : Result Rows) (w : World e Database)
      → Queries h ptr s w
      → Returns (use_rows cs s w) (λ r. At h (idle ptr) r.1)
  unfolding use_rows
  use_rows-At cs (ok rows) w i =
      Returns-chain _ _ (calls-Iterates ptr counts cs rows w i)
        (λ s a. Returns-chain _ _ (close-Iterates ptr s.0 s.1 a) (λ s' b. Returns-returns _ b.1))
  use_rows-At cs (err x) w a = Returns-returns _ a

module _ {e : Platform} (w : World e Database) (r : IsReady w) (counts : Counts e) where
  -- From a database at rest, a query, then any calls on its rows in any order, then `Close`: if
  -- the engine counts no negative number of columns, all of them return, no C function is called outside its contract, and in the end the C objects, the
  -- handle and the mutex are what they were.
  pub query-restores :
      (sql : Bytes) (params : List (Param e)) (cs : List Call)
      → Returns ((query sql params >>= use_rows cs) w) (λ r'. At w.heap w.go r'.1)
  query-restores sql params cs =
      Returns-chain _ _ (query-Queries w.go.handle sql params w r.opened (IsReady-At w r)) (λ s a.
        Returns-mono _ (λ r' b. At-go (sym (IsReady-At w r).go) b)
          (use_rows-At w.go.handle counts cs s.0 s.1 a))
