-- ===== src/Sharing/Calls.antt =====
-- The calls of a goroutine, one by one, when the mutex is free and when it is not.
use zeta_go.Prelude.{ℕ, ◌≡◌, refl, sym, if◌then◌else◌, true, false, Option, none, some, List, arith}
use mathlib.Core.Path.{subst}
use zeta_go.Machine.{Bytes, Ptr, Platform, World, Heap, returns, transaction}
use zeta_go.Machine.Rules.{Returns, Returns-mono}
use zeta_go.Machine.Heaps.{At, At-heap}
use zeta_go.Params.{Param}
use zeta_go.Database.{Database}
use zeta_go.Database.Contract.{IsOpen, Halts, idle}
use zeta_go.Database.Exec.{without}
use zeta_go.Rows.{Rows, next, scan, columns, close}
use zeta_go.Rows.Lifecycle.{Queries, Call, nexts, names, closes, scans, call}
use zeta_go.Tx.{Tx, exec, query, commit, rollback}
use zeta_go.Tx.Lifecycle.{Transacts, active, over, exec-over, query-over, exec_live, query_live}
use zeta_go.Tx.Ending.{Ended, commit-Ended, rollback-Ended}

-- The transaction that a goroutine has in hand, if any, is live or has ended.
pub data Holds (h : Heap) : Option Tx → Type 0 where
  nothing : Holds h none
  live :
      (p : ℕ) → h p ≡ some transaction → Holds h (some (record { handle = some p; done = false }))
  spent : (s : Ptr) → Holds h (some (record { handle = s; done = true }))

-- An iterator that is closed.
abbrev pub Quiet : Option Rows → Type 0
Quiet none = Unit {0}
Quiet (some r) = r.is_closed ≡ true

module _ {e : Platform} where
  -- Any call on a closed iterator returns at once, and changes nothing.
  pub call-Quiet :
      (c : Call) (r : Rows) (w : World e Database)
      → r.is_closed ≡ true
      → call c r w ≡ returns (r, w)
  unfolding call next columns close scan
  call-Quiet nexts r w q = rw q refl
  call-Quiet names r w q = rw q refl
  call-Quiet closes r w q = rw q refl
  call-Quiet (scans dest) r w q = rw q refl

module _ {e : Platform} {h : Heap} where
  -- `Exec` and `Query` in a transaction that is one of the C objects.
  pub tx_exec-At :
      (f : ℕ) (ptr : Ptr) (t : Tx) (sql : Bytes) (params : List (Param e)) (w : World e Database)
      → Halts e f
      → IsOpen h ptr
      → Holds h (some t)
      → At h (idle ptr) w
      → Returns (exec f t sql params w) (λ r. At h (idle ptr) r.1)
  tx_exec-At f ptr t sql params w halts o (spent s) a =
      Returns-mono _ (λ r b. b.1) (exec-over ptr s w a f sql params)
  tx_exec-At f ptr t sql params w halts o (live p lp) a =
      exec_live p lp f ptr sql params w halts o a

  pub tx_query-Queries :
      (ptr : Ptr) (t : Tx) (sql : Bytes) (params : List (Param e)) (w : World e Database)
      → IsOpen h ptr
      → Holds h (some t)
      → At h (idle ptr) w
      → Returns (query t sql params w) (λ r. Queries h ptr r.0 r.1)
  tx_query-Queries ptr t sql params w o (spent s) a =
      Returns-mono _ (λ r b. subst (λ x. Queries h ptr x r.1) (sym b.0) b.1)
        (query-over ptr s w a sql params)
  tx_query-Queries ptr t sql params w o (live p lp) a = query_live p lp ptr sql params w o a

-- The C objects once the transaction has ended.
abbrev pub without_tx : Heap → Tx → Heap
without_tx h t = if t.done then h else without h t.handle

module _ {e : Platform} {h : Heap} (ptr : Ptr) where
  Holds-Transacts :
      (t : Tx) (w : World e Database)
      → Holds h (some t)
      → At h (idle ptr) w
      → Transacts (without_tx h t) ptr t w
  Holds-Transacts t w (spent s) a = over s w a
  Holds-Transacts t w (live p lp) a =
      active p w (ground arith) (At-heap (λ q. ground (arith, lp)) a)

  -- `Commit` and `Rollback` of a transaction that is one of the C objects: it ends.
  pub commit-Holds :
      (t : Tx) (w : World e Database)
      → Holds h (some t)
      → At h (idle ptr) w
      → Returns (commit t w) (λ r. Ended (without_tx h t) ptr r.0.1 r.1)
  commit-Holds t w i a = commit-Ended ptr t w (Holds-Transacts t w i a)

  pub rollback-Holds :
      (t : Tx) (w : World e Database)
      → Holds h (some t)
      → At h (idle ptr) w
      → Returns (rollback t w) (λ r. Ended (without_tx h t) ptr r.0.1 r.1)
  rollback-Holds t w i a = rollback-Ended ptr t w (Holds-Transacts t w i a)
