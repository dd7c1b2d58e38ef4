-- ===== src/Tx/Lifecycle.antt =====
-- A transaction from `Begin` to the deferred `Rollback`: its handle is freed once.
use zeta_go.Prelude.{ℕ, ◌≡◌, refl, sym, true, false, none, some, List, arith}
use mathlib.Core.Path.{subst}
use zeta_go.Machine.{Bytes, Ptr, Platform, World, ◌>>=◌, Heap, put, database, transaction, c_string}
use zeta_go.Machine.Rules.{Returns, Returns-returns, Returns-chain, Returns-mono}
use zeta_go.Machine.Heaps.{At, get_go-chain}
use zeta_go.Capi.Rules.{c_string_of-Returns, zeta_txn_prepare-Returns}
use zeta_go.Errors.{Result, ok, err, tx_done}
use zeta_go.Errors.Rules.{put_same}
use zeta_go.Params.{Param}
use zeta_go.Database.{Database, checked, run_statement}
use zeta_go.Database.Contract.{
  Prepares, IsOpen, Halts, held, idle, prepared-Returns, free-Prepares, run_statement-Returns,
}
use zeta_go.Database.Exec.{lock-Returns, unlock-Returns, critical-Returns, critical_with}
use zeta_go.Rows.Lifecycle.{Queries, start_rows-Queries, Call, use_rows, use_rows-At, Counts}
use zeta_go.Tx.{Tx, prepare_locked, exec_locked, exec, query}

-- Where a transaction stands; `h` is the heap without it.
pub data Transacts {e : Platform} (h : Heap) (ptr : Ptr) : Tx → World e Database → Type 0 where
  active :
      (p : ℕ) (w : World e Database)
      → h p ≡ none
      → At (put h p (some transaction)) (idle ptr) w
      → Transacts h ptr (record { handle = some p; done = false }) w
  over :
      (s : Ptr) (w : World e Database)
      → At h (idle ptr) w
      → Transacts h ptr (record { handle = s; done = true }) w

module _ {e : Platform} {h : Heap} (d : ℕ) (ld : h d ≡ some database) (p : ℕ)
    (lp : h p ≡ some transaction) where
  prepare_locked-Returns :
      (sql : Bytes) (w : World e Database)
      → At h (held (some d)) w
      → Returns
          (prepare_locked (record { handle = some p; done = false }) sql w)
          (λ r. Prepares h (held (some d)) (some p) r.0 r.1)
  unfolding prepare_locked
  prepare_locked-Returns sql w a =
      Returns-chain _ _ (c_string_of-Returns w a) (λ r (n, here, new, b).
        let db : put h n (some c_string) d ≡ some database = ground (arith, ld, new) in
        let txn : put h n (some c_string) p ≡ some transaction = ground (arith, lp, new) in
        rw here (
          Returns-chain _ _
            (get_go-chain r.1 b _ (
              Returns-chain _ _ (zeta_txn_prepare-Returns r.1 b p txn sql)
                (λ r' c. prepared-Returns d db _ r'.0 r'.1 c)))
            (λ r' c. free-Prepares n (some p) r'.0 r'.1 new c)))

  exec_locked-Returns :
      (f : ℕ) (sql : Bytes) (params : List (Param e)) (w : World e Database)
      → Halts e f
      → At h (held (some d)) w
      → Returns
          (exec_locked f (record { handle = some p; done = false }) sql params w)
          (λ r. At h (held (some d)) r.1)
  unfolding exec_locked
  exec_locked-Returns f sql params w halts a =
      Returns-chain _ _ (prepare_locked-Returns sql w a) (λ r b. go r.0 r.1 b)
    where
      go :
          (s : Result Ptr) (w' : World e Database)
          → Prepares h (held (some d)) (some p) s w'
          → Returns
              (checked s (λ stmt. run_statement f stmt params) w')
              (λ r. At h (held (some d)) r.1)
      go (ok none) w' b = absurd b
      go (ok (some q)) w' (new, b) = run_statement-Returns h d ld f q (some p) params w' halts new b
      go (err x) w' b = Returns-returns _ b

  query-Queries :
      (sql : Bytes) (params : List (Param e)) (w : World e Database)
      → At h (idle (some d)) w
      → Returns
          (query (record { handle = some p; done = false }) sql params w)
          (λ r. Queries h (some d) r.0 r.1)
  unfolding query
  query-Queries sql params w a = Returns-chain _ _ (lock-Returns (some d) w a) (λ r b.
      get_go-chain r.1 b _ (
        Returns-chain _ _ (prepare_locked-Returns sql r.1 b)
          (λ r' c. start_rows-Queries (some d) (some p) params r'.0 r'.1 c)))

module _ {e : Platform} {h : Heap} where
  -- A query on a closed database.
  closed_query :
      (q : ℕ) (w : World e Database)
      → At h (idle none) w
      → (sql : Bytes) (params : List (Param e))
      → Returns
          (query (record { handle = some q; done = false }) sql params w)
          (λ r. Queries h none r.0 r.1)
  unfolding query
  closed_query q w a sql params = Returns-chain _ _ (lock-Returns none w a) (λ r b.
      get_go-chain r.1 b _
        (Returns-chain _ _ (unlock-Returns none r.1 b) (λ r' c. Returns-returns _ c)))

module _ {e : Platform} {h : Heap} (p : ℕ) (lp : h p ≡ some transaction) where
  -- `Exec` and `Query` in a transaction that is one of the C objects, on an open or closed database.
  pub exec_live :
      (f : ℕ) (ptr : Ptr) (sql : Bytes) (params : List (Param e)) (w : World e Database)
      → Halts e f
      → IsOpen h ptr
      → At h (idle ptr) w
      → Returns
          (exec f (record { handle = some p; done = false }) sql params w)
          (λ r. At h (idle ptr) r.1)
  unfolding exec
  exec_live f none sql params w halts o a =
      critical-Returns _ (λ w' b. get_go-chain w' b _ (Returns-returns _ b)) w a
  exec_live f (some d) sql params w halts o a =
      critical-Returns _
        (λ w' b. get_go-chain w' b _ (exec_locked-Returns d o p lp f sql params w' halts b)) w a

  pub query_live :
      (ptr : Ptr) (sql : Bytes) (params : List (Param e)) (w : World e Database)
      → IsOpen h ptr
      → At h (idle ptr) w
      → Returns
          (query (record { handle = some p; done = false }) sql params w)
          (λ r. Queries h ptr r.0 r.1)
  query_live none sql params w o a = closed_query p w a sql params
  query_live (some d) sql params w o a = query-Queries d o p lp sql params w a

-- A database that is open while a transaction is active stays so.
pub still_open :
    (h : Heap) (p : ℕ) (ptr : Ptr)
    → h p ≡ none
    → IsOpen h ptr
    → IsOpen (put h p (some transaction)) ptr
still_open h p none new o = tt
still_open h p (some d) new o = ground (arith, o, new)

module _ {e : Platform} {h : Heap} where
  -- `Exec` in a transaction that is active or over, on a database that is open or closed, returns if
  -- every statement ends within the fuel, and the transaction and the other C objects stay as they
  -- are.
  pub exec-Transacts :
      (f : ℕ) (ptr : Ptr) (t : Tx) (sql : Bytes) (params : List (Param e)) (w : World e Database)
      → Halts e f
      → IsOpen h ptr
      → Transacts h ptr t w
      → Returns (exec f t sql params w) (λ r. Transacts h ptr t r.1)
  unfolding exec
  exec-Transacts f ptr t sql params w halts o (over s _ a) =
      Returns-mono _ (λ r b. over s r.1 b)
        (critical-Returns _ (λ w' b. get_go-chain w' b _ (Returns-returns _ b)) w a)
  exec-Transacts f ptr t sql params w halts o (active p _ new a) =
      Returns-mono _ (λ r b. active p r.1 new b)
        (exec_live p (put_same h p _) f ptr sql params w halts (still_open h p ptr new o) a)

module _ {e : Platform} {h : Heap} (ptr : Ptr) where
  -- A finished transaction with `s` left in its handle.
  module _ (s : Ptr) (w : World e Database) (a : At h (idle ptr) w) where
    pub exec-over :
        (f : ℕ) (sql : Bytes) (params : List (Param e))
        → Returns
            (exec f (record { handle = s; done = true }) sql params w)
            (λ r. (r.0 ≡ err tx_done) × At h (idle ptr) r.1)
    unfolding exec
    exec-over f sql params =
        critical_with _ (λ x. x ≡ err tx_done)
          (λ w' b. get_go-chain w' b _ (Returns-returns _ (refl, b))) w a

    pub query-over :
        (sql : Bytes) (params : List (Param e))
        → Returns
            (query (record { handle = s; done = true }) sql params w)
            (λ r. (r.0 ≡ err tx_done) × At h (idle ptr) r.1)
    unfolding query
    query-over sql params = Returns-chain _ _ (lock-Returns ptr w a) (λ r b.
        get_go-chain r.1 b _
          (Returns-chain _ _ (unlock-Returns ptr r.1 b) (λ r' c. Returns-returns _ (refl, c))))

module _ {e : Platform} {h : Heap} (counts : Counts e) where
  -- `Query` in a transaction that is active or over, on a database that is open or closed, with any
  -- calls on its rows and their `Close`, returns if the engine counts no negative number of columns,
  -- and the transaction and the other C objects stay as they are.
  pub query-Transacts :
      (ptr : Ptr) (t : Tx) (sql : Bytes) (params : List (Param e)) (cs : List Call)
      (w : World e Database)
      → IsOpen h ptr
      → Transacts h ptr t w
      → Returns ((query t sql params >>= use_rows cs) w) (λ r. Transacts h ptr t r.1)
  query-Transacts ptr t sql params cs w o (over s _ a) =
      Returns-chain _ _ (query-over ptr s w a sql params) (λ r b.
        Returns-mono _ (λ r' c. over s r'.1 c)
          (use_rows-At ptr counts cs r.0 r.1 (subst (λ x. Queries h ptr x r.1) (sym b.0) b.1)))
  query-Transacts ptr t sql params cs w o (active p _ new a) =
      Returns-chain _ _
        (query_live p (put_same h p _) ptr sql params w (still_open h p ptr new o) a)
        (λ r b. Returns-mono _ (λ r' c. active p r'.1 new c) (use_rows-At ptr counts cs r.0 r.1 b))
