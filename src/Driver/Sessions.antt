-- ===== src/Driver/Sessions.antt =====
-- A connection and a prepared statement on it, used in any order: statements, transactions and
-- `Close`s.
pub mod Invariant
pub mod Whole
use zeta_go.Prelude.{ℕ, Bool, List, [], ◌∷◌}
use zeta_go.Machine.{Bytes, Platform, M, pure, ◌>>=◌, ◌>>◌, set_go}
use zeta_go.Errors.{Result, ok, err}
use zeta_go.Driver.Values.{NamedValue}
use zeta_go.Driver.Conn.{Conn, open_conn}
use zeta_go.Driver.Conn.Sessions.{ConnCall, conn_call, conn_calls}
use zeta_go.Driver.Stmt.{Stmt, prepare_context, exec_context, query_context, close}
use zeta_go.Driver.Rows.Sessions.{RowCall, use_query}

-- The calls on the statement and its connection; a Boolean is whether the context has ended.
pub data SessionCall (e : Platform) : Type 0 where
  calls_conn : ConnCall → SessionCall e
  execs : Bool → List (NamedValue e) → SessionCall e
  -- `QueryContext`, with the calls on its rows before they are closed
  queries : Bool → List (NamedValue e) → List RowCall → SessionCall e
  closes : SessionCall e

module _ {e : Platform} where
  unfoldable pub session_call : ℕ → SessionCall e → Stmt → M e Conn Stmt
  session_call f (calls_conn c) s = do conn_call c; pure s
  session_call f (execs ended args) s = do r ← exec_context f ended s args; pure r.1
  session_call f (queries ended args cs) s = query_context ended s args >>= use_query cs
  session_call f closes s = do r ← close s; pure r.1

  unfoldable pub session_calls : ℕ → List (SessionCall e) → Stmt → M e Conn Stmt
  session_calls f [] s w = pure s w
  session_calls f (c ∷ cs) s w = (session_call f c s >>= session_calls f cs) w

  -- A statement that may have been prepared is used, and closed.
  unfoldable pub use_stmt : ℕ → List (SessionCall e) → Result Stmt → M e Conn (Unit {0})
  use_stmt f cs (ok s) = do s' ← session_calls f cs s; close s'; pure tt
  use_stmt f cs (err x) = pure tt

  -- The same for a connection: calls on it, a prepared statement in use, and the `Close` of both.
  unfoldable pub use_session :
      ℕ → List ConnCall → Bool → Bytes → List (SessionCall e) → Result Conn → M e Conn (Unit {0})
  unfolding use_stmt
  use_session f bs ended sql cs (ok c) = do
    set_go c
    conn_calls bs
    r ← prepare_context ended sql
    use_stmt f cs r
    zeta_go.Driver.Conn.close
    pure tt
  use_session f bs ended sql cs (err x) = pure tt
