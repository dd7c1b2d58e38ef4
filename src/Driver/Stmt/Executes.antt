-- ===== src/Driver/Stmt/Executes.antt =====
-- `Exec` of a prepared statement against what the engine does with it.
use zeta_go.Prelude.{
  ℕ, ◌≡◌, refl, sym, ap, ◌∙◌, Bool, Bool-cases, true, false, inl, inr, not, none, some, List, map,
  arith, if◌then◌else◌,
}
use mathlib.Core.Path.{subst}
use zeta_go.Prelude.Int.{ℤ, eq_ℤ}
use zeta_go.Machine.{Bytes, Ptr, Platform, World, Heap, put, statement, database}
use zeta_go.Machine.Rules.{Returns, Returns-returns, Returns-chain, Returns-mono}
use zeta_go.Machine.Heaps.{At, get_go-chain}
use zeta_go.Machine.Known.{In, In-heap}
use zeta_go.Capi.{zeta_ok}
use zeta_go.Capi.Known.{zeta_reset_known}
use zeta_go.Errors.{GoError, Result, ok, err}
use zeta_go.Errors.Rules.{put_same, put_twice}
use zeta_go.Params.Reference.{all_bound, stmt_failure, Agrees, bind_params-Agrees, stmt_error_known}
use zeta_go.Database.{is_nil, drain}
use zeta_go.Database.Contract.{Halts, Moved, Moved-again}
use zeta_go.Database.Loop.{Runs, drain-Runs}
use zeta_go.Driver.Conn.{Conn}
use zeta_go.Driver.Values.{DriverValue, convert, bind_values}
use zeta_go.Driver.Stmt.{
  Stmt, reusable, ensure_prepared, reset_then_bind, on_prepared, reset_and_bind, run_to_end, exec,
}

-- What the reset and the binding of the values do.
abbrev pub rebound :
    (e : Platform) → ℕ → List (DriverValue e) → e.State → Result (Unit {0}) × e.State
rebound e p args s =
    let (rc, t) = e.reset s p in
    if eq_ℤ rc zeta_ok
    then all_bound e p 1 (map convert args) t
    else (err (stmt_failure e t p rc), t)

-- How the engine runs the prepared statement `p` once more: reset, values, and steps to the end.
pub data Reruns (e : Platform) (d p : ℕ) (args : List (DriverValue e)) (s : e.State)
    : Result ℤ → e.State → Type 0 where
  stopped :
      (x : GoError) (t : e.State) → rebound e p args s ≡ (err x, t) → Reruns e d p args s (err x) t
  ran :
      (t u : e.State) (r : Result ℤ)
      → rebound e p args s ≡ (ok tt, t)
      → Runs e d p t r u
      → Reruns e d p args s r u

-- A statement with a handle.
abbrev pub on_handle : ℕ → Bytes → Bool → Stmt
on_handle p sql b = record { handle = some p; query = sql; in_txn = b; is_closed = false }

module _ {e : Platform} (h : Heap) (c : Conn) (p : ℕ) (owner : Ptr) where
  rebind_known :
      (row : Bool) (sql : Bytes) (b : Bool) (args : List (DriverValue e)) (s : e.State)
      (w : World e Conn)
      → In s (put h p (some (statement owner row))) c w
      → Returns
          (reset_then_bind (on_handle p sql b) args w)
          (Agrees (put h p (some (statement owner false))) c (rebound e p args s))
  unfolding reset_then_bind bind_values
  rebind_known row sql b args s w i =
      Returns-chain _ _ (zeta_reset_known w i p owner row (put_same h p _)) (λ r (x, k).
        let at_rest = In-heap (put_twice h p _ _) k in
        elim (Bool-cases (eq_ℤ (e.reset s p).0 zeta_ok)) [
          | inl good ↦
              rw (x, good, reset_then_bind)
                (bind_params-Agrees p owner false (put_same h p _) _ _ r.1 at_rest)
          | inr bad ↦
              rw (x, bad, reset_then_bind)
                (Returns-chain _ _ (stmt_error_known p owner false (put_same h p _) _ _ r.1 at_rest)
                  (λ r' (y, m). Returns-returns _ (ap (λ z. err z) y, m)))
        ])

  run_to_end_known :
      (f d : ℕ) (t : Ptr) (sql : Bytes) (b : Bool) (s : e.State) (w : World e Conn)
      → Halts e f
      → h p ≡ none
      → h d ≡ some database
      → c ≡ record { handle = some d; txn = t }
      → In s (put h p (some (statement owner false))) c w
      → Returns
          (run_to_end f (on_handle p sql b) w)
          (λ r. Runs e d p s r.0 r.1.engine × Moved h c p owner r.1)
  unfolding run_to_end
  run_to_end_known f d t sql b s w halts new ld here i = get_go-chain w i.at _ (
      subst
        (λ (g : Conn).
          Returns (drain f g.handle (some p) w)
            (λ r. Runs e d p s r.0 r.1.engine × Moved h c p owner r.1))
        (sym here)
        (Returns-mono _
          (λ r (m, k). (
            subst (λ s. Runs e d p s r.0 r.1.engine) i.engine m,
            Moved-again h p owner false r.1 k,
          ))
          (drain-Runs f _ d p owner false w (ground (arith, ld, new)) (put_same h p _)
            (halts w.engine p) i.at)))

  -- The rest of `Exec`, once the values are bound or are not.
  bound-Reruns :
      (f d : ℕ) (t : Ptr) (sql : Bytes) (b : Bool) (args : List (DriverValue e)) (s : e.State)
      (x : Result (Unit {0})) (u : e.State) (w : World e Conn)
      → Halts e f
      → h p ≡ none
      → h d ≡ some database
      → c ≡ record { handle = some d; txn = t }
      → rebound e p args s ≡ (x, u)
      → In u (put h p (some (statement owner false))) c w
      → Returns (on_prepared x (on_handle p sql b) (run_to_end f) w) (λ r.
        (r.0.1 ≡ on_handle p sql b) × Reruns e d p args s r.0.0 r.1.engine × Moved h c p owner r.1)
  unfolding on_prepared
  bound-Reruns f d t sql b args s (err x) u w halts new ld here q i =
      Returns-returns _
        (refl, stopped x w.engine (q ∙ ap (λ t. (err x, t)) (sym i.engine)), (false, i.at))
  bound-Reruns f d t sql b args s (ok y) u w halts new ld here q i =
      Returns-chain _ _ (run_to_end_known f d t sql b u w halts new ld here i)
        (λ r (m, k). Returns-returns _ (refl, ran u r.1.engine r.0 q m, k))

module _ {e : Platform} (h : Heap) (d p : ℕ) (t owner : Ptr) (sql : Bytes) (b row : Bool)
    (fits : reusable (on_handle p sql b) (not (is_nil t)) ≡ true)
    (args : List (DriverValue e)) where
  -- The handle is used as it is.
  ensured :
      (w : World e Conn)
      → At (put h p (some (statement owner row))) (record { handle = some d; txn = t }) w
      → Returns
          (ensure_prepared (on_handle p sql b) w)
          (λ r. (r.0 ≡ (ok tt, on_handle p sql b)) × (r.1 ≡ w))
  unfolding ensure_prepared
  ensured w a = get_go-chain w a _ (rw fits (Returns-returns _ (refl, refl)))

  pub reset_and_bind_known :
      (w : World e Conn)
      → At (put h p (some (statement owner row))) (record { handle = some d; txn = t }) w
      → Returns (reset_and_bind (on_handle p sql b) args w) (λ r.
        (r.0.1 ≡ on_handle p sql b)
        × (r.0.0 ≡ (rebound e p args w.engine).0)
        × In
            (rebound e p args w.engine).1
            (put h p (some (statement owner false)))
            (record { handle = some d; txn = t })
            r.1)
  unfolding reset_and_bind on_prepared
  reset_and_bind_known w a = Returns-chain _ _ (ensured w a) (λ r (q, y).
      rw (q, y, on_prepared)
        (Returns-chain _ _
          (rebind_known h (record { handle = some d; txn = t }) p owner row sql b args w.engine w
            (record { at = a; engine = refl }))
          (λ r' (x, k). Returns-returns _ (refl, x, k))))

  -- On an open connection, `Exec` of a statement that has a live handle, prepared with or without a
  -- transaction as the connection has one or not, prepares nothing. It resets the handle, gives the
  -- engine the values in order, a time as its text, and takes it through the steps to the end;
  -- whatever fails first ends it. It returns what that means, the statement keeps its handle, and
  -- no other C object has changed, if every statement ends within the fuel.
  pub stmt_exec-Reruns :
      (f : ℕ) (w : World e Conn)
      → Halts e f
      → h p ≡ none
      → h d ≡ some database
      → At (put h p (some (statement owner row))) (record { handle = some d; txn = t }) w
      → Returns (exec f (on_handle p sql b) args w) (λ r.
        (r.0.1 ≡ on_handle p sql b)
        × Reruns e d p args w.engine r.0.0 r.1.engine
        × Moved h (record { handle = some d; txn = t }) p owner r.1)
  unfolding exec
  stmt_exec-Reruns f w halts new ld a = Returns-chain _ _ (reset_and_bind_known w a) (λ r (q, x, k).
      rw (q, x)
        (bound-Reruns h (record { handle = some d; txn = t }) p owner f d t sql b args w.engine
          (rebound e p args w.engine).0 (rebound e p args w.engine).1 r.1 halts new ld refl refl k))
