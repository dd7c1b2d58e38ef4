-- ===== src/Driver/Stmt/Runs.antt =====
-- `Exec` and `Query` of a prepared statement: they return and keep the statement's handle.
use mathlib.Core.Path.{subst}
use zeta_go.Prelude.{
  not, ◌||◌, ℕ, ◌≡◌, refl, sym, Bool, Bool-cases, true, false, inl, inr, none, some, List, arith,
  if◌then◌else◌,
}
use zeta_go.Prelude.Int.{ℤ, eq_ℤ}
use zeta_go.Machine.{Bytes, Ptr, Platform, World, pure, ◌>>=◌, Heap, put, statement, database}
use zeta_go.Machine.Rules.{Returns, Returns-returns, Returns-chain, Returns-mono}
use zeta_go.Machine.Heaps.{At, At-heap, get_go-chain}
use zeta_go.Capi.{zeta_ok, zeta_row, zeta_done}
use zeta_go.Capi.Rules.{zeta_reset-Returns, zeta_step-Returns}
use zeta_go.Errors.{Result, ok, err}
use zeta_go.Errors.Report.{stmt_error}
use zeta_go.Database.{drain}
use zeta_go.Errors.Rules.{put_same, put_twice, stmt_error-Returns}
use zeta_go.Params.Rules.{bind_params-Returns}
use zeta_go.Database.Contract.{Halts, Moved, drain-Returns}
use zeta_go.Driver.Conn.{Conn}
use zeta_go.Driver.Values.{DriverValue, bind_values}
use zeta_go.Driver.Stmt.Context.{IsTxn, Holds, holding, Ensures, wanted, ensure_prepared-Ensures}
use zeta_go.Driver.Stmt.{
  Stmt, reset_then_bind, on_prepared, reset_and_bind, run_to_end, exec, RowState, first_step, query,
}

-- The statement's handle is NULL or live, whoever owns it.
abbrev pub Kept : {e : Platform} → Heap → Conn → Stmt → World e Conn → Type 0
Kept h c s w = (owner : Ptr) × Holds h c owner s w

-- What `Query` answers on a live handle: a row is pending only where the handle is at one.
abbrev pub Stepped :
    {e : Platform} → Heap → Conn → ℕ → Ptr → Result RowState → World e Conn → Type 0
Stepped h c p owner (ok r) w =
    (row : Bool) × ((not r.pending || row) ≡ true) × At (put h p (some (statement owner row))) c w
Stepped h c p owner (err x) w = Moved h c p owner w

module _ {e : Platform} (h : Heap) (c : Conn) (p : ℕ) (owner : Ptr) (new : h p ≡ none) where
  -- The binding of the values on a live handle.
  reset_then_bind-Returns :
      (row : Bool) (sql : Bytes) (b closed : Bool) (args : List (DriverValue e)) (w : World e Conn)
      → At (put h p (some (statement owner row))) c w
      → Returns
          (reset_then_bind
            (record { handle = some p; query = sql; in_txn = b; is_closed = closed })
            args
            w)
          (λ r. At (put h p (some (statement owner false))) c r.1)
  unfolding reset_then_bind bind_values
  reset_then_bind-Returns row sql b closed args w a =
      Returns-chain _ _ (zeta_reset-Returns w a p owner row (put_same h p _)) (λ r k.
        let at_rest = At-heap (put_twice h p _ _) k in
        elim (Bool-cases (eq_ℤ r.0 zeta_ok)) [
          | inl good ↦
              rw (good, reset_then_bind)
                (bind_params-Returns p owner false (put_same h p _) _ r.1 at_rest)
          | inr bad ↦
              rw (bad, reset_then_bind)
                (Returns-chain _ _
                  (stmt_error-Returns r.1 at_rest p owner false r.0 (put_same h p _))
                  (λ r' m. Returns-returns _ m))
        ])

  run_to_end-Returns :
      (f d : ℕ) (t : Ptr) (sql : Bytes) (b closed : Bool) (w : World e Conn)
      → Halts e f
      → h d ≡ some database
      → c ≡ record { handle = some d; txn = t }
      → At (put h p (some (statement owner false))) c w
      → Returns
          (run_to_end f (record { handle = some p; query = sql; in_txn = b; is_closed = closed }) w)
          (λ r. Moved h c p owner r.1)
  unfolding run_to_end
  run_to_end-Returns f d t sql b closed w halts ld here a = get_go-chain w a _ (
      subst (λ (g : Conn). Returns (drain f g.handle (some p) w) (λ r. Moved h c p owner r.1))
        (sym here)
        (Returns-mono _ (λ r (row, k). (row, At-heap (put_twice h p _ _) k))
          (drain-Returns f _ d p owner false w (ground (arith, ld, new)) (put_same h p _)
            (halts w.engine p) a)))

  first_step-Returns :
      (sql : Bytes) (b closed : Bool) (w : World e Conn)
      → At (put h p (some (statement owner false))) c w
      → Returns
          (first_step (record { handle = some p; query = sql; in_txn = b; is_closed = closed }) w)
          (λ r. Stepped h c p owner r.0 r.1)
  unfolding first_step
  first_step-Returns sql b closed w a =
      Returns-chain _ _ (zeta_step-Returns w a p owner false (put_same h p _))
        (λ r k. stepped r.0 r.1 (At-heap (put_twice h p _ _) k.2))
    where
      stepped :
          (rc : ℤ) (w' : World e Conn)
          → At (put h p (some (statement owner (eq_ℤ rc zeta_row)))) c w'
          → Returns
              ((if eq_ℤ rc zeta_row
                  then pure (ok (record { pending = true; done = false; is_closed = false }))
                  else if eq_ℤ rc zeta_done
                  then pure (ok (record { pending = false; done = true; is_closed = false }))
                  else (do x ← stmt_error (some p) rc; pure (err x)))
                w')
              (λ r. Stepped h c p owner r.0 r.1)
      stepped rc w' k = elim (Bool-cases (eq_ℤ rc zeta_row)) [
        | inl more ↦ rw more (
            Returns-returns _
              (true, refl, subst (λ b. At (put h p (some (statement owner b))) c w') more k))
        | inr other ↦ elim (Bool-cases (eq_ℤ rc zeta_done)) [
          | inl over ↦ rw (other, over) (Returns-returns _ (eq_ℤ rc zeta_row, refl, k))
          | inr bad ↦
              rw (other, bad)
                (Returns-chain _ _ (stmt_error-Returns w' k p owner _ rc (put_same h p _))
                  (λ r m. Returns-returns _ (eq_ℤ rc zeta_row, m)))
        ]
      ]

-- What `resetAndBind` answers: an error, or a live handle at rest.
abbrev pub Bound : {e : Platform} → Heap → Conn → Result (Unit {0}) → Stmt → World e Conn → Type 0
Bound h c (err x) s w = Kept h c s w
Bound h c (ok u) s w =
    (p : ℕ) × (owner : Ptr) × (sql : Bytes) × (h p ≡ none)
    × (s ≡ record { handle = some p; query = sql; in_txn = wanted owner; is_closed = false })
    × At (put h p (some (statement owner false))) c w

-- What `Query` answers: an error, or rows on the live handle, the first of which is there if it is
-- pending.
abbrev pub Steps : {e : Platform} → Heap → Conn → Result RowState → Stmt → World e Conn → Type 0
Steps h c (err x) s w = Kept h c s w
Steps h c (ok r) s w =
    (p : ℕ) × (owner : Ptr) × (row : Bool) × (sql : Bytes) × (h p ≡ none)
    × (s ≡ record { handle = some p; query = sql; in_txn = wanted owner; is_closed = false })
    × ((not r.pending || row) ≡ true)
    × At (put h p (some (statement owner row))) c w

module _ {e : Platform} {h : Heap} (d : ℕ) (t old : Ptr) (s : Stmt) (args : List (DriverValue e))
    (w : World e Conn) (ld : h d ≡ some database) (lt : IsTxn h t)
    (i : Holds h (record { handle = some d; txn = t }) old s w) where
  reset_and_bind-Bound :
      Returns
        (reset_and_bind s args w)
        (λ r. Bound h (record { handle = some d; txn = t }) r.0.0 r.0.1 r.1)
  unfolding reset_and_bind on_prepared
  reset_and_bind-Bound =
      Returns-chain _ _ (ensure_prepared-Ensures c old s w ld lt i) (λ r k. ready r.0.0 r.0.1 r.1 k)
    where
      c : Conn
      c = record { handle = some d; txn = t }

      bound :
          (p : ℕ) (owner : Ptr) (sql : Bytes) (x : Result (Unit {0})) (w' : World e Conn)
          → h p ≡ none
          → At (put h p (some (statement owner false))) c w'
          → Bound h c x
              (record { handle = some p; query = sql; in_txn = wanted owner; is_closed = false })
              w'
      bound p owner sql (err x) w' new a = (owner, holding p false sql false w' new a)
      bound p owner sql (ok u) w' new a = (p, owner, sql, new, refl, a)

      ready :
          (x : Result (Unit {0})) (s' : Stmt) (w' : World e Conn)
          → Ensures h c old s.query x s' w'
          → Returns
              (on_prepared x s' (λ s''. reset_then_bind s'' args) w')
              (λ r. Bound h c r.0.0 r.0.1 r.1)
      ready (err x) s' w' k = Returns-returns _ k
      ready (ok u) s' w' (p, owner, row, q, new, a, _) =
          subst
            (λ y.
              Returns (on_prepared (ok u) y (λ s''. reset_then_bind s'' args) w')
                (λ r. Bound h c r.0.0 r.0.1 r.1))
            (sym q)
            (Returns-chain _ _
              (reset_then_bind-Returns h c p owner new row s.query (wanted owner) false args w' a)
              (λ r b. Returns-returns _ (bound p owner s.query r.0 r.1 new b)))

  -- `Exec` of a prepared statement, its handle NULL or live, on an open connection whose transaction,
  -- if any, is live, returns if every statement ends within the fuel; the statement's handle is then
  -- NULL or live, and no other C object has changed.
  pub exec-Kept :
      (f : ℕ)
      → Halts e f
      → Returns (exec f s args w) (λ r. Kept h (record { handle = some d; txn = t }) r.0.1 r.1)
  unfolding exec on_prepared
  exec-Kept f halts = Returns-chain _ _ reset_and_bind-Bound (λ r k. run r.0.0 r.0.1 r.1 k)
    where
      c : Conn
      c = record { handle = some d; txn = t }

      run :
          (x : Result (Unit {0})) (s' : Stmt) (w' : World e Conn)
          → Bound h c x s' w'
          → Returns (on_prepared x s' (run_to_end f) w') (λ r. Kept h c r.0.1 r.1)
      run (err x) s' w' k = Returns-returns _ k
      run (ok u) s' w' (p, owner, sql, new, q, a) =
          subst (λ y. Returns (on_prepared (ok u) y (run_to_end f) w') (λ r. Kept h c r.0.1 r.1))
            (sym q)
            (Returns-chain _ _
              (run_to_end-Returns h c p owner new f d t sql (wanted owner) false w' halts ld refl a)
              (λ r (row, b). Returns-returns _ (owner, holding p row sql false r.1 new b)))

  -- `Query` of a prepared statement on an open connection returns: an error, the handle NULL or
  -- live, or rows on the live handle, which is at a row if one is pending; no other C object has
  -- changed.
  pub query-Steps :
      Returns (query s args w) (λ r. Steps h (record { handle = some d; txn = t }) r.0.0 r.0.1 r.1)
  unfolding query on_prepared
  query-Steps = Returns-chain _ _ reset_and_bind-Bound (λ r k. run r.0.0 r.0.1 r.1 k)
    where
      c : Conn
      c = record { handle = some d; txn = t }

      stepped :
          (p : ℕ) (owner : Ptr) (sql : Bytes) (x : Result RowState) (w' : World e Conn)
          → h p ≡ none
          → Stepped h c p owner x w'
          → Steps h c x
              (record { handle = some p; query = sql; in_txn = wanted owner; is_closed = false })
              w'
      stepped p owner sql (err x) w' new (row, a) = (owner, holding p row sql false w' new a)
      stepped p owner sql (ok r) w' new (row, at, a) = (p, owner, row, sql, new, refl, at, a)

      run :
          (x : Result (Unit {0})) (s' : Stmt) (w' : World e Conn)
          → Bound h c x s' w'
          → Returns (on_prepared x s' first_step w') (λ r. Steps h c r.0.0 r.0.1 r.1)
      run (err x) s' w' k = Returns-returns _ k
      run (ok u) s' w' (p, owner, sql, new, q, a) =
          subst (λ y. Returns (on_prepared (ok u) y first_step w') (λ r. Steps h c r.0.0 r.0.1 r.1))
            (sym q)
            (Returns-chain _ _ (first_step-Returns h c p owner new sql (wanted owner) false w' a)
              (λ r b. Returns-returns _ (stepped p owner sql r.0 r.1 new b)))
