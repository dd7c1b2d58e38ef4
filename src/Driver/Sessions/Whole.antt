-- ===== src/Driver/Sessions/Whole.antt =====
-- Whole sessions: from `openConn` to the last `Close`, nothing is left behind.
use zeta_go.Prelude.{ℕ, ◌≡◌, inl, inr, Bool, List, [], ◌∷◌}
use zeta_go.Prelude.Int.{ℤ}
use zeta_go.Machine.{Bytes, Ptr, Platform, World, pure, ◌>>=◌, Heap}
use zeta_go.Machine.Rules.{Returns, Returns-returns, Returns-chain, Returns-mono}
use zeta_go.Machine.Heaps.{At, At-go, set_go-chain}
use zeta_go.Errors.{Result, ok, err}
use zeta_go.Database.Contract.{Halts}
use zeta_go.Rows.Lifecycle.{Counts}
use zeta_go.Driver.Values.{NamedValue}
use zeta_go.Driver.Conn.{Conn, open_conn}
use zeta_go.Driver.Conn.Calls.{nowhere, on, Connects, shut, rests, close-shut}
use zeta_go.Driver.Conn.Sessions.{
  ConnCall, conn_call, conn_call-Connects, conn_calls-Connects, Opened, open_conn-Opened,
}
use zeta_go.Driver.Stmt.{Stmt, RowState, prepare_context, exec_context, query_context}
use zeta_go.Driver.Stmt.Prepares.{
  Prepared, Closed, prepare_context-Closed, prepare_context-Prepared,
}
use zeta_go.Driver.Stmt.Contexts.{
  Refuses, exec_context-Refuses, query_context-Refuses, exec_context_then, query_context_then,
}
use zeta_go.Driver.Stmt.Runs.{exec-Kept}
use zeta_go.Driver.Rows.Sessions.{RowCall, use_query, query-Kept}
use zeta_go.Driver.Sessions.Invariant.{
  IsFree, linked, InSession, unprepared, ready, operation-InSession, close-InSession,
  linked_or_shut, Kept-InSession, Connects-linked, linked-database, linked-IsTxn,
}
use zeta_go.Driver.Sessions.{
  SessionCall, calls_conn, execs, queries, closes, session_call, session_calls, use_stmt,
  use_session,
}

-- What `PrepareContext` answers on any connection: a statement in a session, or an error.
abbrev Starts : {e : Platform} → Heap → Result Stmt → World e Conn → Type 0
Starts h (ok s) w = InSession h s w
Starts h (err x) w = Connects h w

module _ {e : Platform} (f : ℕ) (halts : Halts e f) (counts : Counts e) where
  execs-InSession :
      {h : Heap} (ended : Bool) (args : List (NamedValue e)) (s : Stmt) (w : World e Conn)
      → InSession h s w
      → Returns ((exec_context f ended s args >>= λ r. pure r.1) w) (λ r. InSession h r.0 r.1)
  execs-InSession ended args s w i =
      operation-InSession (exec_context f ended s args >>= λ r. pure r.1) s w
        (λ d t old h' ld lt k.
          exec_context_then _ ended s w f args _
            (λ vs.
              Returns-chain _ _ (exec-Kept d t old s vs w ld lt k f halts)
                (λ r m. Returns-returns _ m))
            (λ y. Returns-returns _ (old, k)))
        (λ h' a.
          Returns-chain _ _ (exec_context-Refuses s w a f ended args)
            (λ r m. refused h' s r.0.0 r.0.1 r.1 m))
        i
    where
      refused :
          (h' : Heap) (s : Stmt) (x : Result ℤ) (s' : Stmt) (w' : World e Conn)
          → Refuses h' s x s' w'
          → Returns (pure s' w') (λ r. (r.0 ≡ s) × At h' nowhere r.1)
      refused h' s (ok n) s' w' m = absurd m
      refused h' s (err x) s' w' m = Returns-returns _ m

  queries-InSession :
      {h : Heap} (ended : Bool) (args : List (NamedValue e)) (cs : List RowCall) (s : Stmt)
      (w : World e Conn)
      → InSession h s w
      → Returns ((query_context ended s args >>= use_query cs) w) (λ r. InSession h r.0 r.1)
  unfolding use_query
  queries-InSession ended args cs s w i =
      operation-InSession (query_context ended s args >>= use_query cs) s w
        (λ d t old h' ld lt k.
          query_context_then _ ended s w args (use_query cs)
            (λ vs. query-Kept d t old s vs cs w ld lt k counts) (λ y. Returns-returns _ (old, k)))
        (λ h' a.
          Returns-chain _ _ (query_context-Refuses s w a ended args)
            (λ r m. refused h' s r.0.0 r.0.1 r.1 m))
        i
    where
      refused :
          (h' : Heap) (s : Stmt) (x : Result RowState) (s' : Stmt) (w' : World e Conn)
          → Refuses h' s x s' w'
          → Returns (use_query cs (x, s') w') (λ r. (r.0 ≡ s) × At h' nowhere r.1)
      refused h' s (ok n) s' w' m = absurd m
      refused h' s (err x) s' w' m = Returns-returns _ m

  conn_call-InSession :
      {h : Heap} (c : ConnCall) (s : Stmt) (w : World e Conn)
      → InSession h s w
      → Returns (conn_call c w) (λ r. InSession h s r.1)
  conn_call-InSession c s w (unprepared sql b over _ k) =
      Returns-mono _ (λ r m. unprepared sql b over r.1 m) (conn_call-Connects c w k)
  conn_call-InSession c s w (ready p row owner sql over _ new k) =
      Returns-mono _ (λ r m. ready p row owner sql over r.1 new m) (conn_call-Connects c w k)

  session_call-InSession :
      {h : Heap} (c : SessionCall e) (s : Stmt) (w : World e Conn)
      → InSession h s w
      → Returns (session_call f c s w) (λ r. InSession h r.0 r.1)
  unfolding session_call
  session_call-InSession (calls_conn c) s w i =
      Returns-chain _ _ (conn_call-InSession c s w i) (λ r k. Returns-returns _ k)
  session_call-InSession (execs ended args) s w i = execs-InSession ended args s w i
  session_call-InSession (queries ended args cs) s w i = queries-InSession ended args cs s w i
  session_call-InSession closes s w i =
      Returns-chain _ _ (close-InSession s w i) (λ r k. Returns-returns _ k.0)

  session_calls-InSession :
      {h : Heap} (cs : List (SessionCall e)) (s : Stmt) (w : World e Conn)
      → InSession h s w
      → Returns (session_calls f cs s w) (λ r. InSession h r.0 r.1)
  unfolding session_calls
  session_calls-InSession [] s w i = Returns-returns _ i
  session_calls-InSession (c ∷ cs) s w i =
      Returns-chain _ _ (session_call-InSession c s w i)
        (λ r k. session_calls-InSession cs r.0 r.1 k)

  use_stmt-Connects :
      {h : Heap} (cs : List (SessionCall e)) (r : Result Stmt) (w : World e Conn)
      → Starts h r w
      → Returns (use_stmt f cs r w) (λ r'. Connects h r'.1)
  unfolding use_stmt
  use_stmt-Connects cs (ok s) w i =
      Returns-chain _ _ (session_calls-InSession cs s w i)
        (λ r k. Returns-chain _ _ (close-InSession r.0 r.1 k) (λ r' m. Returns-returns _ m.1))
  use_stmt-Connects cs (err x) w k = Returns-returns _ k

prepare_context-Starts :
    {e : Platform} {h : Heap} (ended : Bool) (sql : Bytes) (w : World e Conn)
    → Connects h w
    → Returns (prepare_context ended sql w) (λ r. Starts h r.0 r.1)
unfolding prepare_context
prepare_context-Starts {e} {h} ended sql w k = elim (linked_or_shut w k) [
  | inl a ↦ Returns-mono _ (λ r m. refused r.0 r.1 m) (prepare_context-Closed ended sql w a)
  | inr (d, t, free, a) ↦
      Returns-mono _ (λ r m. started d t free r.0 r.1 m)
        (prepare_context-Prepared d t ended sql w (linked-database h d t free) (linked-IsTxn h d t)
          a)
]
  where
    refused : (r : Result Stmt) (w' : World e Conn) → Closed h r w' → Starts h r w'
    refused (ok s) w' m = absurd m
    refused (err x) w' m = shut w' m

    started :
        (d : ℕ) (t : Ptr)
        → IsFree d t h
        → (r : Result Stmt) (w' : World e Conn) → Prepared (linked d t h) (on d t) t r w'
        → Starts h r w'
    started d t free (ok s) w' m = Kept-InSession h d t s w' free (t, m)
    started d t free (err x) w' m = Connects-linked h d t w' free m

-- Opening a connection, any calls on it, `PrepareContext`, any calls in any order on the statement
-- and the connection (`ExecContext`, `QueryContext` with any calls on its rows and their `Close`,
-- `Close` of the statement, `Begin`, `BeginTx`, `Commit`, `Rollback`, `Close` of the connection), and
-- in the end `Close` of the statement and of the connection: if every statement ends within the fuel
-- and the engine counts no negative number of columns, all of them return, no C function is called
-- outside its contract, and the C objects are in the end what they were before.
pub session-restores :
    {e : Platform} {h : Heap} (f : ℕ) (dsn sql : Bytes) (bs : List ConnCall) (ended : Bool)
    (cs : List (SessionCall e)) (w : World e Conn)
    → Halts e f
    → Counts e
    → At h nowhere w
    → Returns ((open_conn dsn >>= use_session f bs ended sql cs) w) (λ r. At h nowhere r.1)
unfolding use_session
session-restores {e} {h} f dsn sql bs ended cs w halts counts a =
    Returns-chain _ _ (open_conn-Opened dsn w a) (λ r k. used r.0 r.1 k)
  where
    used :
        (s : Result Conn) (w' : World e Conn)
        → Opened h s w'
        → Returns (use_session f bs ended sql cs s w') (λ r. At h nowhere r.1)
    used (ok c) w' (d, here, new, k) = set_go-chain w' k c _ (λ w1 b.
        Returns-chain _ _ (conn_calls-Connects bs w1 (rests d w1 new (At-go here b))) (λ r i.
          Returns-chain _ _ (prepare_context-Starts ended sql r.1 i) (λ p m.
            Returns-chain _ _ (use_stmt-Connects f halts counts cs p.0 p.1 m)
              (λ u n. Returns-chain _ _ (close-shut u.1 n) (λ z v. Returns-returns _ v)))))
    used (err x) w' k = Returns-returns _ k
