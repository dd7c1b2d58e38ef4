-- ===== src/Driver/Rows/Queries.antt =====
-- A query of a prepared statement through database/sql, from the reset to the last row.
use zeta_go.Prelude.{ℕ, suc, ◌≡◌, refl, sym, ap, ◌∙◌, Bool, true, false, not, some, List, []}
use zeta_go.Machine.{Bytes, Ptr, Platform, World, M, ◌>>=◌, Heap, put, statement}
use zeta_go.Machine.Rules.{Returns, Returns-returns, Returns-chain, Returns-mono, Returns-assoc}
use zeta_go.Machine.Heaps.{At}
use zeta_go.Machine.Known.{In}
use zeta_go.Errors.{GoError, Result, ok, err}
use zeta_go.Columns.{Value}
use zeta_go.Database.{is_nil}
use zeta_go.Database.Contract.{Halts, Moved}
use zeta_go.Driver.Conn.{Conn}
use zeta_go.Driver.Values.{DriverValue}
use zeta_go.Driver.Stmt.{Stmt, reusable, on_prepared, first_step, reset_and_bind, query}
use zeta_go.Driver.Stmt.Executes.{on_handle, rebound, reset_and_bind_known}
use zeta_go.Driver.Rows.Fetches.{Fetches, fetch_first}
use zeta_go.Driver.Rows.Whole.{First, first_step-First, First-Fetched}

-- What a client gets: the error of the reset or of the binding, or the rows and how they end.
pub data Queried (e : Platform) (p places : ℕ) (args : List (DriverValue e)) (s : e.State)
    : List (List (Value e)) × GoError → e.State → Type 0 where
  unbound :
      (x : GoError) (t : e.State)
      → rebound e p args s ≡ (err x, t)
      → Queried e p places args s ([], x) t
  fetched :
      (t u : e.State) (rows : List (List (Value e))) (x : GoError)
      → rebound e p args s ≡ (ok tt, t)
      → Fetches e p places t rows x u
      → Queried e p places args s (rows, x) u

module _ {e : Platform} where
  -- `Query`, and `Next` until it answers an error.
  unfoldable pub query_all :
      ℕ → Stmt → List (DriverValue e) → ℕ → M e Conn (List (List (Value e)) × GoError)
  query_all f s args places = do r ← query s args; fetch_first f r.1 places r.0

module _ {e : Platform} (h : Heap) (c : Conn) (p : ℕ) (owner : Ptr) (sql : Bytes) (b : Bool)
    (args : List (DriverValue e)) (places f : ℕ) (s : e.State) where
  bound-Queried :
      (x : Result (Unit {0})) (t : e.State) (w : World e Conn)
      → Halts e (suc f)
      → rebound e p args s ≡ (x, t)
      → In t (put h p (some (statement owner false))) c w
      → Returns
          ((on_prepared x (on_handle p sql b) first_step >>= λ r.
              fetch_first (suc f) r.1 places r.0)
            w)
          (λ r. Queried e p places args s r.0 r.1.engine × Moved h c p owner r.1)
  unfolding on_prepared fetch_first
  bound-Queried (err x) t w halts q i =
      Returns-returns _
        (unbound x w.engine (q ∙ ap (λ t. (err x, t)) (sym i.engine)), (false, i.at))
  bound-Queried (ok y) t w halts q i =
      Returns-chain _ _
        (Returns-chain _ _ (first_step-First h c p owner sql b places t false w i) (λ r k.
          Returns-returns
            {P = λ r. (r.0.1 ≡ on_handle p sql b) × First h c p owner places t r.0.0 r.1} _
            (refl, k)))
        (λ r (z, k). rw z (
          Returns-mono _ (λ r' (m, a). (fetched t r'.1.engine r'.0.0 r'.0.1 q m, a))
            (First-Fetched h c p owner sql b places t f r.0.0 r.1 (halts t p) k)))

module _ {e : Platform} (h : Heap) (d p : ℕ) (t owner : Ptr) (sql : Bytes) (b row : Bool)
    (fits : reusable (on_handle p sql b) (not (is_nil t)) ≡ true)
    (args : List (DriverValue e)) where
  -- On an open connection, a query with a statement that has a live handle, prepared with or without
  -- a transaction as the connection has one or not, and `Next` until it answers an error: if every
  -- statement ends within the fuel, all of them return. Nothing is prepared. The handle is reset,
  -- and the engine gets the values in order; if that fails, the client gets the error. Otherwise it
  -- gets each row that the engine gives once and in order, the one that `Query` fetched ahead
  -- included, with the values of its columns as far as there are places, and then io.EOF or the
  -- engine's error. Only the statement's cursor has moved.
  pub query_all-Queried :
      (f places : ℕ) (w : World e Conn)
      → Halts e (suc f)
      → At (put h p (some (statement owner row))) (record { handle = some d; txn = t }) w
      → Returns (query_all (suc f) (on_handle p sql b) args places w) (λ r.
        Queried e p places args w.engine r.0 r.1.engine
        × Moved h (record { handle = some d; txn = t }) p owner r.1)
  unfolding query_all query
  query_all-Queried f places w halts a =
      Returns-assoc (reset_and_bind (on_handle p sql b) args w) _ _ (
        Returns-chain _ _ (reset_and_bind_known h d p t owner sql b row fits args w a)
          (λ r (q, x, k).
            rw (q, x)
              (bound-Queried h (record { handle = some d; txn = t }) p owner sql b args places f
                w.engine (rebound e p args w.engine).0 (rebound e p args w.engine).1 r.1 halts refl
                k)))
