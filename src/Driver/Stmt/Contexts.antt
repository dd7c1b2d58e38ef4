-- ===== src/Driver/Stmt/Contexts.antt =====
-- The operations of a statement that take a context, and those on a closed connection.
use zeta_go.Prelude.{ℕ, ◌≡◌, refl, inl, inr, Bool, Bool-cases, true, false, List, if◌then◌else◌}
use zeta_go.Prelude.Int.{ℤ}
use zeta_go.Machine.{Platform, World, M, Heap, pure, ◌>>=◌}
use zeta_go.Machine.Rules.{Returns, Returns-returns, Returns-chain}
use zeta_go.Machine.Heaps.{At, get_go-chain}
use zeta_go.Errors.{GoError, context_ended, Result, ok, err}
use zeta_go.Driver.Values.{DriverValue, NamedValue, named_to_values}
use zeta_go.Driver.Conn.{Conn}
use zeta_go.Driver.Conn.Calls.{nowhere}
use zeta_go.Driver.Stmt.{
  Stmt, RowState, ensure_prepared, reset_and_bind, on_prepared, exec, query, with_values,
  exec_context, query_context,
}

-- A statement on a closed connection: an error, and nothing happens.
abbrev pub Refuses :
    {e : Platform} {A : Type 0} → Heap → Stmt → Result A → Stmt → World e Conn → Type 0
Refuses h s (ok a) s' w = ⊥
Refuses h s (err x) s' w = (s' ≡ s) × At h nowhere w

module _ {e : Platform} {h : Heap} (s : Stmt) (w : World e Conn) (a : At h nowhere w) where
  ensure_prepared-Refuses : Returns (ensure_prepared s w) (λ r. Refuses h s r.0.0 r.0.1 r.1)
  unfolding ensure_prepared
  ensure_prepared-Refuses = get_go-chain w a _ (elim (Bool-cases s.is_closed) [
    | inl over ↦ rw (over, ensure_prepared) (Returns-returns _ (refl, a))
    | inr going ↦ rw (going, ensure_prepared) (Returns-returns _ (refl, a))
  ])

  on_prepared-Refuses :
      {A : Type 0} (x : Result (Unit {0})) (s' : Stmt) (k : Stmt → M e Conn (Result A))
      (w' : World e Conn)
      → Refuses h s x s' w'
      → Returns (on_prepared x s' k w') (λ r. Refuses h s r.0.0 r.0.1 r.1)
  unfolding on_prepared
  on_prepared-Refuses (ok u) s' k w' r = absurd r
  on_prepared-Refuses (err x) s' k w' r = Returns-returns _ r

  reset_and_bind-Refuses :
      (args : List (DriverValue e))
      → Returns (reset_and_bind s args w) (λ r. Refuses h s r.0.0 r.0.1 r.1)
  unfolding reset_and_bind
  reset_and_bind-Refuses args =
      Returns-chain _ _ ensure_prepared-Refuses (λ r k. on_prepared-Refuses r.0.0 r.0.1 _ r.1 k)

  exec-Refuses :
      (f : ℕ) (args : List (DriverValue e))
      → Returns (exec f s args w) (λ r. Refuses h s r.0.0 r.0.1 r.1)
  unfolding exec
  exec-Refuses f args =
      Returns-chain _ _ (reset_and_bind-Refuses args)
        (λ r k. on_prepared-Refuses r.0.0 r.0.1 _ r.1 k)

  query-Refuses :
      (args : List (DriverValue e)) → Returns (query s args w) (λ r. Refuses h s r.0.0 r.0.1 r.1)
  unfolding query
  query-Refuses args =
      Returns-chain _ _ (reset_and_bind-Refuses args)
        (λ r k. on_prepared-Refuses r.0.0 r.0.1 _ r.1 k)

  with_values-Refuses :
      {A : Type 0} (ended : Bool) (x : Result (List (DriverValue e)))
      (k : Stmt → List (DriverValue e) → M e Conn (Result A × Stmt))
      → ((args : List (DriverValue e)) → Returns (k s args w) (λ r. Refuses h s r.0.0 r.0.1 r.1))
      → Returns (with_values ended s x k w) (λ r. Refuses h s r.0.0 r.0.1 r.1)
  unfolding with_values
  with_values-Refuses ended (err x) k run = Returns-returns _ (refl, a)
  with_values-Refuses true (ok args) k run = Returns-returns _ (refl, a)
  with_values-Refuses false (ok args) k run = run args

  pub exec_context-Refuses :
      (f : ℕ) (ended : Bool) (args : List (NamedValue e))
      → Returns (exec_context f ended s args w) (λ r. Refuses h s r.0.0 r.0.1 r.1)
  unfolding exec_context
  exec_context-Refuses f ended args =
      with_values-Refuses ended (named_to_values args) (exec f) (λ vs. exec-Refuses f vs)

  pub query_context-Refuses :
      (ended : Bool) (args : List (NamedValue e))
      → Returns (query_context ended s args w) (λ r. Refuses h s r.0.0 r.0.1 r.1)
  unfolding query_context
  query_context-Refuses ended args =
      with_values-Refuses ended (named_to_values args) query (λ vs. query-Refuses vs)

-- What follows an operation with a context: it goes on after the operation or after an error.
module _ {e : Platform} {B : Type 0} (P : B × World e Conn → Type 0) (ended : Bool) (s : Stmt)
    (w : World e Conn) where
  with_values_then :
      {A : Type 0} (x : Result (List (DriverValue e)))
      (k : Stmt → List (DriverValue e) → M e Conn (Result A × Stmt))
      (next : Result A × Stmt → M e Conn B)
      → ((args : List (DriverValue e)) → Returns ((k s args >>= next) w) P)
      → ((y : GoError) → Returns (next (err y, s) w) P)
      → Returns ((with_values ended s x k >>= next) w) P
  unfolding with_values
  with_values_then (err x) k next run bad = bad x
  with_values_then (ok args) k next run bad = decided ended
    where
      decided :
          (b : Bool)
          → Returns (((if b then pure (err context_ended, s) else k s args) >>= next) w) P
      decided true = bad context_ended
      decided false = run args

  pub exec_context_then :
      (f : ℕ) (args : List (NamedValue e)) (next : Result ℤ × Stmt → M e Conn B)
      → ((vs : List (DriverValue e)) → Returns ((exec f s vs >>= next) w) P)
      → ((y : GoError) → Returns (next (err y, s) w) P)
      → Returns ((exec_context f ended s args >>= next) w) P
  unfolding exec_context
  exec_context_then f args next run bad =
      with_values_then (named_to_values args) (exec f) next run bad

  pub query_context_then :
      (args : List (NamedValue e)) (next : Result RowState × Stmt → M e Conn B)
      → ((vs : List (DriverValue e)) → Returns ((query s vs >>= next) w) P)
      → ((y : GoError) → Returns (next (err y, s) w) P)
      → Returns ((query_context ended s args >>= next) w) P
  unfolding query_context
  query_context_then args next run bad = with_values_then (named_to_values args) query next run bad
