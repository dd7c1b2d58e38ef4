-- ===== src/Devlisten/Lifecycle.antt =====
-- Starting and stopping listeners returns and leaves the C objects as they were.
use zeta_go.Prelude.{sym, none, some, arith}
use zeta_go.Machine.{Bytes, Ptr, Platform, World, Listener, pgwire, mysqlwire, Heap}
use zeta_go.Machine.Rules.{Returns, Returns-returns, Returns-chain, Returns-mono}
use zeta_go.Machine.Heaps.{At, At-heap, At-go, get_go-chain}
use zeta_go.Capi.Rules.{c_string_of-Returns, free-Returns}
use zeta_go.Capi.Answers.{zeta_start-Returns, zeta_stop_listeners-Returns}
use zeta_go.Errors.Rules.{put_fresh}
use zeta_go.Database.{Database}
use zeta_go.Database.Contract.{IsOpen, idle}
use zeta_go.Database.Exec.{IsReady, IsReady-At, critical-Returns}
use zeta_go.Tx.Ending.{committed-Returns}
use zeta_go.Devlisten.{start_listener, start_pgwire_dev, start_mysqlwire_dev, stop_dev_listeners}

module _ {e : Platform} {h : Heap} where
  start_listener-At :
      (l : Listener) (p : Ptr) (addr : Bytes) (w : World e Database)
      → IsOpen h p
      → At h (idle p) w
      → Returns (start_listener l addr w) (λ r. At h (idle p) r.1)
  unfolding start_listener
  start_listener-At l none addr w o a =
      critical-Returns _ (λ w' b. get_go-chain w' b _ (Returns-returns _ b)) w a
  start_listener-At l (some d) addr w o a =
      critical-Returns _
        (λ w' b. get_go-chain w' b _ (
          Returns-chain _ _ (c_string_of-Returns w' b) (λ r (n, here, new, c). rw here (
            Returns-chain _ _
              (Returns-chain _ _ (zeta_start-Returns r.1 c d (ground (arith, o, new)) l addr)
                (λ r' k. committed-Returns _ r'.0.0 r'.0.1 r'.1 k))
              (λ r' k.
                Returns-chain _ _ (free-Returns r'.1 k n (ground arith))
                  (λ s m. Returns-returns _ (At-heap (put_fresh h n _ new) m)))))))
        w a

  stop_dev_listeners-At :
      (p : Ptr) (w : World e Database)
      → IsOpen h p
      → At h (idle p) w
      → Returns (stop_dev_listeners w) (λ r. At h (idle p) r.1)
  unfolding stop_dev_listeners
  stop_dev_listeners-At none w o a =
      critical-Returns _ (λ w' b. get_go-chain w' b _ (Returns-returns _ b)) w a
  stop_dev_listeners-At (some d) w o a =
      critical-Returns _
        (λ w' b.
          get_go-chain w' b _
            (Returns-chain _ _ (zeta_stop_listeners-Returns w' b d o) (λ r c. Returns-returns _ c)))
        w a

-- From a database at rest, starting either listener and stopping them returns, whatever the engine
-- answers, and the C objects, the handle and the mutex are then what they were.
pub devlisten-restores :
    {e : Platform} (w : World e Database) (r : IsReady w) (addr : Bytes)
    → Returns (start_pgwire_dev addr w) (λ r'. At w.heap w.go r'.1)
      × Returns (start_mysqlwire_dev addr w) (λ r'. At w.heap w.go r'.1)
      × Returns (stop_dev_listeners w) (λ r'. At w.heap w.go r'.1)
unfolding start_pgwire_dev start_mysqlwire_dev
devlisten-restores w r addr =
    let a = IsReady-At w r in
    (
      Returns-mono _ (λ r'. At-go (sym a.go))
          (start_listener-At pgwire w.go.handle addr w r.opened a),
      Returns-mono _ (λ r'. At-go (sym a.go))
          (start_listener-At mysqlwire w.go.handle addr w r.opened a),
      Returns-mono _ (λ r'. At-go (sym a.go)) (stop_dev_listeners-At w.go.handle w r.opened a),
    )
