-- ===== src/Driver/Conn/Calls.antt =====
-- The calls on a connection: where each leaves it.
use zeta_go.Prelude.{ℕ, ◌≡◌, Bool, true, false, Option, none, some}
use zeta_go.Prelude.Int.{ℤ}
use zeta_go.Machine.{Ptr, Platform, World, Heap, put, set_go, database, transaction}
use zeta_go.Machine.Rules.{Returns, Returns-returns, Returns-chain, Returns-mono}
use zeta_go.Machine.Heaps.{At, At-heap, get_go-chain, set_go-chain, set_go-Returns}
use zeta_go.Capi.Rules.{
  Reports, zeta_begin_isolation-Returns, zeta_commit-Returns, zeta_rollback-Returns,
  zeta_close-Returns,
}
use zeta_go.Errors.{Result, ok, err}
use zeta_go.Errors.Rules.{put_fresh, put_same}
use zeta_go.Database.Contract.{Creates, prepared-Returns}
use zeta_go.Tx.Ending.{committed-Returns}
use zeta_go.Driver.Conn.{
  Conn, roll_back_open, close_handle, close, begun, begin_at, isolation_of, begin_mapped, begin_tx,
  commit, rollback,
}

-- No connection.
abbrev pub nowhere : Conn
nowhere = record { handle = none; txn = none }

abbrev pub on : ℕ → Ptr → Conn
on d t = record { handle = some d; txn = t }

-- Where a connection stands; `h` is the heap without its objects.
pub data Connects {e : Platform} (h : Heap) : World e Conn → Type 0 where
  shut : (w : World e Conn) → At h nowhere w → Connects h w
  rests :
      (d : ℕ) (w : World e Conn)
      → h d ≡ none
      → At (put h d (some database)) (on d none) w
      → Connects h w
  works :
      (d t : ℕ) (w : World e Conn)
      → h d ≡ none
      → put h d (some database) t ≡ none
      → At (put (put h d (some database)) t (some transaction)) (on d (some t)) w
      → Connects h w

module _ {e : Platform} {h : Heap} where
  roll_back_open-rests :
      (t : ℕ) (c : Conn) (w : World e Conn)
      → h t ≡ none
      → At (put h t (some transaction)) (record { handle = c.handle; txn = some t }) w
      → Returns (roll_back_open w) (λ r. At h (record { handle = c.handle; txn = none }) r.1)
  unfolding roll_back_open
  roll_back_open-rests t c w free a = get_go-chain w a _ (
      Returns-chain _ _ (zeta_rollback-Returns w a t (put_same h t _)) (λ r b.
        Returns-mono _ (λ r' k. At-heap (put_fresh h t _ free) k)
          (set_go-Returns r.1 b (record { handle = c.handle; txn = none }))))

  roll_back_open-none :
      (p : Ptr) (w : World e Conn)
      → At h (record { handle = p; txn = none }) w
      → Returns (roll_back_open w) (λ r. At h (record { handle = p; txn = none }) r.1)
  unfolding roll_back_open
  roll_back_open-none p w a = get_go-chain w a _ (Returns-returns _ a)

  close_handle-none :
      (w : World e Conn) → At h nowhere w → Returns (close_handle w) (λ r. At h nowhere r.1)
  unfolding close_handle
  close_handle-none w a = get_go-chain w a _ (Returns-returns _ a)

  close_handle-some :
      (d : ℕ) (w : World e Conn)
      → h d ≡ none
      → At (put h d (some database)) (on d none) w
      → Returns (close_handle w) (λ r. At h nowhere r.1)
  unfolding close_handle
  close_handle-some d w new a = get_go-chain w a _ (
      Returns-chain _ _ (zeta_close-Returns w a d (put_same h d _)) (λ r b.
        Returns-mono _ (λ r' k. At-heap (put_fresh h d _ new) k) (set_go-Returns r.1 b nowhere)))

-- The Go object changes while an error string may be live.
set_go-Reports :
    {e : Platform} (h : Heap) (g g' : Conn) (rc : ℤ) (msg : Ptr) (w : World e Conn)
    → Reports h g rc msg w
    → Returns (set_go g' w) (λ r. Reports h g' rc msg r.1)
set_go-Reports h g g' rc none w (silent, a) =
    Returns-mono _ (λ r b. (silent, b)) (set_go-Returns w a g')
set_go-Reports h g g' rc (some m) w (silent, (t, new, a)) =
    Returns-mono _ (λ r b. (silent, (t, new, b))) (set_go-Returns w a g')

module _ {e : Platform} {h : Heap} where
  pub close-shut : (w : World e Conn) → Connects h w → Returns (close w) (λ r. At h nowhere r.1)
  unfolding close
  close-shut w (shut _ a) =
      Returns-chain _ _ (roll_back_open-none none w a)
        (λ r b. Returns-chain _ _ (close_handle-none r.1 b) (λ r' c. Returns-returns _ c))
  close-shut w (rests d _ new a) =
      Returns-chain _ _ (roll_back_open-none (some d) w a)
        (λ r b. Returns-chain _ _ (close_handle-some d r.1 new b) (λ r' c. Returns-returns _ c))
  close-shut w (works d t _ new free a) =
      Returns-chain _ _ (roll_back_open-rests t (on d none) w free a)
        (λ r b. Returns-chain _ _ (close_handle-some d r.1 new b) (λ r' c. Returns-returns _ c))

  begun-Connects :
      (d : ℕ) (s : Result Ptr) (w : World e Conn)
      → h d ≡ none
      → Creates (put h d (some database)) (on d none) transaction s w
      → Returns (begun s w) (λ r. Connects h r.1)
  unfolding begun
  begun-Connects d (ok none) w new c = absurd c
  begun-Connects d (ok (some t)) w new (free, a) =
      get_go-chain w a _
        (set_go-chain w a (on d (some t)) _ (λ w' b. Returns-returns _ (works d t w' new free b)))
  begun-Connects d (err x) w new a = Returns-returns _ (rests d w new a)

  pub begin_at-Connects :
      (level : ℤ) (w : World e Conn)
      → Connects h w
      → Returns (begin_at level w) (λ r. Connects h r.1)
  unfolding begin_at
  begin_at-Connects level w (shut _ a) = get_go-chain w a _ (Returns-returns _ (shut w a))
  begin_at-Connects level w (rests d _ new a) = get_go-chain w a _ (
      Returns-chain _ _ (zeta_begin_isolation-Returns w a d (put_same h d _) level) (λ r b.
        Returns-chain _ _ (prepared-Returns d (put_same h d _) transaction r.0 r.1 b)
          (λ r' c. begun-Connects d r'.0 r'.1 new c)))
  begin_at-Connects level w (works d t _ new free a) =
      get_go-chain w a _ (Returns-returns _ (works d t w new free a))

  begin_mapped-Connects :
      (asked : ℤ) (level : Option ℤ) (w : World e Conn)
      → Connects h w
      → Returns (begin_mapped asked level w) (λ r. Connects h r.1)
  unfolding begin_mapped
  begin_mapped-Connects asked none w i = Returns-returns _ i
  begin_mapped-Connects asked (some level) w i = begin_at-Connects level w i

  pub begin_tx-Connects :
      (ended : Bool) (asked : ℤ) (w : World e Conn)
      → Connects h w
      → Returns (begin_tx ended asked w) (λ r. Connects h r.1)
  unfolding begin_tx
  begin_tx-Connects true asked w i = Returns-returns _ i
  begin_tx-Connects false asked w i = begin_mapped-Connects asked (isolation_of asked) w i

  pub commit-Connects : (w : World e Conn) → Connects h w → Returns (commit w) (λ r. Connects h r.1)
  unfolding commit
  commit-Connects w (shut _ a) = get_go-chain w a _ (Returns-returns _ (shut w a))
  commit-Connects w (rests d _ new a) = get_go-chain w a _ (Returns-returns _ (rests d w new a))
  commit-Connects w (works d t _ new free a) = get_go-chain w a _ (
      Returns-chain _ _ (zeta_commit-Returns w a t (put_same (put h d (some database)) t _)) (λ r b.
        Returns-chain _ _ (set_go-Reports _ _ (on d none) r.0.0 r.0.1 r.1 b) (λ r' c.
          Returns-mono _
            (λ s k. rests d s.1 new (At-heap (put_fresh (put h d (some database)) t _ free) k))
            (committed-Returns (on d none) r.0.0 r.0.1 r'.1 c))))

  pub rollback-Connects :
      (w : World e Conn) → Connects h w → Returns (rollback w) (λ r. Connects h r.1)
  unfolding rollback
  rollback-Connects w (shut _ a) = get_go-chain w a _ (Returns-returns _ (shut w a))
  rollback-Connects w (rests d _ new a) = get_go-chain w a _ (Returns-returns _ (rests d w new a))
  rollback-Connects w (works d t _ new free a) = get_go-chain w a _ (
      Returns-chain _ _ (zeta_rollback-Returns w a t (put_same (put h d (some database)) t _))
        (λ r b. set_go-chain r.1 b (on d none) _ (λ w' c.
          Returns-returns _
            (rests d w' new (At-heap (put_fresh (put h d (some database)) t _ free) c)))))
