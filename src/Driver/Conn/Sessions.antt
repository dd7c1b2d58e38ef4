-- ===== src/Driver/Conn/Sessions.antt =====
-- A connection of the driver, from `openConn` to `Close`.
use zeta_go.Prelude.{ℕ, ◌≡◌, refl, Bool, none, some, List, [], ◌∷◌}
use zeta_go.Prelude.Int.{ℤ}
use zeta_go.Machine.{Bytes, Ptr, Platform, World, M, pure, ◌>>=◌, ◌>>◌, Heap, put, set_go, database}
use zeta_go.Machine.Rules.{Returns, Returns-returns, Returns-chain, Returns-mono}
use zeta_go.Machine.Heaps.{At, At-go, set_go-chain}
use zeta_go.Errors.{Result, ok, err}
use zeta_go.Database.Contract.{Creates}
use zeta_go.Database.Opens.{open_path-Creates}
use zeta_go.Database.{checked}
use zeta_go.Tx.{isolation_snapshot}
use zeta_go.Driver.Conn.{Conn, open_conn, close, begin, begin_tx, commit, rollback}
use zeta_go.Driver.Conn.Calls.{
  nowhere, on, Connects, shut, rests, close-shut, begin_at-Connects, begin_tx-Connects,
  commit-Connects, rollback-Connects,
}

-- The calls on a connection.
pub data ConnCall : Type 0 where
  begins commits rollbacks closes : ConnCall
  -- `BeginTx`, with whether its context has ended, and the level
  begins_tx : Bool → ℤ → ConnCall

module _ {e : Platform} where
  unfoldable pub conn_call : ConnCall → M e Conn (Result (Unit {0}))
  conn_call begins = begin
  conn_call (begins_tx ended level) = begin_tx ended level
  conn_call commits = commit
  conn_call rollbacks = rollback
  conn_call closes = close

  unfoldable pub conn_calls : List ConnCall → M e Conn (Unit {0})
  conn_calls [] w = pure tt w
  conn_calls (c ∷ cs) w = (conn_call c >> conn_calls cs) w

  -- What database/sql does with a connection that it may have opened.
  unfoldable pub use_conn : List ConnCall → Result Conn → M e Conn (Unit {0})
  use_conn cs (ok c) = do set_go c; conn_calls cs; close; pure tt
  use_conn cs (err x) = pure tt

module _ {e : Platform} {h : Heap} where
  pub conn_call-Connects :
      (c : ConnCall) (w : World e Conn)
      → Connects h w
      → Returns (conn_call c w) (λ r. Connects h r.1)
  unfolding conn_call begin
  conn_call-Connects begins w i = begin_at-Connects isolation_snapshot w i
  conn_call-Connects (begins_tx ended level) w i = begin_tx-Connects ended level w i
  conn_call-Connects commits w i = commit-Connects w i
  conn_call-Connects rollbacks w i = rollback-Connects w i
  conn_call-Connects closes w i = Returns-mono _ (λ r a. shut r.1 a) (close-shut w i)

  pub conn_calls-Connects :
      (cs : List ConnCall) (w : World e Conn)
      → Connects h w
      → Returns (conn_calls cs w) (λ r. Connects h r.1)
  unfolding conn_calls
  conn_calls-Connects [] w i = Returns-returns _ i
  conn_calls-Connects (c ∷ cs) w i =
      Returns-chain _ _ (conn_call-Connects c w i) (λ r k. conn_calls-Connects cs r.1 k)

-- What `openConn` answers: a connection that is no object of the world yet, or an error.
abbrev pub Opened : {e : Platform} → Heap → Result Conn → World e Conn → Type 0
Opened h (ok c) w =
    (d : ℕ) × (c ≡ on d none) × (h d ≡ none) × At (put h d (some database)) nowhere w
Opened h (err x) w = At h nowhere w

pub open_conn-Opened :
    {e : Platform} {h : Heap} (dsn : Bytes) (w : World e Conn)
    → At h nowhere w
    → Returns (open_conn dsn w) (λ r. Opened h r.0 r.1)
unfolding open_conn
open_conn-Opened {e} {h} dsn w a =
    Returns-chain _ _ (open_path-Creates dsn w a) (λ r k. connect r.0 r.1 k)
  where
    connect :
        (s : Result Ptr) (w' : World e Conn)
        → Creates h nowhere database s w'
        → Returns
            (checked s (λ p. pure (ok (record { handle = p; txn = none }))) w')
            (λ r. Opened h r.0 r.1)
    connect (ok none) w' k = absurd k
    connect (ok (some d)) w' (new, k) = Returns-returns _ (d, refl, new, k)
    connect (err x) w' k = Returns-returns _ k

-- Opening a connection, any calls of `Begin`, `BeginTx`, `Commit`, `Rollback` and `Close` in any
-- order, and the last `Close`: all of them return, whatever the engine answers, no C function is
-- called outside its contract, and the C objects are in the end what they were before.
pub connection-restores :
    {e : Platform} {h : Heap} (dsn : Bytes) (cs : List ConnCall) (w : World e Conn)
    → At h nowhere w
    → Returns ((open_conn dsn >>= use_conn cs) w) (λ r. At h nowhere r.1)
unfolding use_conn
connection-restores {e} {h} dsn cs w a =
    Returns-chain _ _ (open_conn-Opened dsn w a) (λ r k. used r.0 r.1 k)
  where
    used :
        (s : Result Conn) (w' : World e Conn)
        → Opened h s w'
        → Returns (use_conn cs s w') (λ r. At h nowhere r.1)
    used (ok c) w' (d, here, new, k) = set_go-chain w' k c _ (λ w1 b.
        Returns-chain _ _ (conn_calls-Connects cs w1 (rests d w1 new (At-go here b)))
          (λ r i. Returns-chain _ _ (close-shut r.1 i) (λ r' m. Returns-returns _ m)))
    used (err x) w' k = Returns-returns _ k
