-- ===== src/Driver/Rows/Fetched.antt =====
-- The rows of a query of database/sql: a client that asks for rows until the end gets each row of the
-- engine once, in order.
use zeta_go.Prelude.{
  ℕ, zero, suc, ◌≡◌, refl, sym, ap, ◌∙◌, Bool, Bool-cases, true, false, inl, inr, some, List, [],
}
use mathlib.Core.Path.{subst}
use zeta_go.Prelude.Int.{ℤ, eq_ℤ}
use zeta_go.Machine.{Bytes, Ptr, Platform, World, Heap, put, statement}
use zeta_go.Machine.Rules.{Returns, Returns-returns, Returns-chain, Returns-mono}
use zeta_go.Machine.Heaps.{At, At-heap}
use zeta_go.Machine.Known.{In}
use zeta_go.Capi.{zeta_row, zeta_done}
use zeta_go.Capi.Rules.{zeta_step-Returns}
use zeta_go.Errors.{GoError, eof, Result, ok, err}
use zeta_go.Errors.Rules.{put_same, put_twice}
use zeta_go.Params.Reference.{stmt_failure, stmt_error_known}
use zeta_go.Columns.{Value}
use zeta_go.Database.Contract.{ends, or_right, Moved}
use zeta_go.Driver.Conn.{Conn}
use zeta_go.Driver.Stmt.{RowState}
use zeta_go.Driver.Stmt.Executes.{on_handle}
use zeta_go.Driver.Rows.Fetches.{
  row_of, Fetches, finished, fails, takes, rest_of, fetch, read_row-Tells,
}
use zeta_go.Driver.Rows.{after_step, next}

-- Rows that are open, with nothing fetched ahead.
abbrev going : RowState
going = record { pending = false; done = false; is_closed = false }

abbrev pub done_rows : RowState
done_rows = record { pending = false; done = true; is_closed = false }

abbrev pub pending_row : RowState
pending_row = record { pending = true; done = false; is_closed = false }

-- What `Next` answers after a step from `s`: the row, or the end.
abbrev Nexts :
    {e : Platform}
    → Heap
    → Conn
    → ℕ
    → Ptr
    → ℕ
    → e.State
    → Result (List (Value e)) × RowState
    → World e Conn
    → Type 0
Nexts {e} h c p owner places s (ok vs, r) w =
    (eq_ℤ (e.step s p).0 zeta_row ≡ true)
    × (vs ≡ row_of e (e.step s p).1 p places)
    × (r ≡ going)
    × In (e.step s p).1 (put h p (some (statement owner true))) c w
Nexts {e} h c p owner places s (err x, r) w =
    Fetches e p places s [] x w.engine
    × ((row : Bool) × At (put h p (some (statement owner row))) c w)

-- The ends, by the code that the step has returned.
module _ {e : Platform} {p places : ℕ} (s : e.State) (rc : ℤ) where
  pub over_now :
      {G : Type 0} (w : World e G)
      → rc ≡ (e.step s p).0
      → eq_ℤ rc zeta_row ≡ false
      → eq_ℤ rc zeta_done ≡ true
      → w.engine ≡ (e.step s p).1
      → Fetches e p places s [] eof w.engine
  over_now w q other over y =
      finished s w.engine (ap (λ c. eq_ℤ c zeta_row) (sym q) ∙ other)
        (ap (λ c. eq_ℤ c zeta_done) (sym q) ∙ over) y

  pub failed_now :
      {G : Type 0} (x : GoError) (w : World e G)
      → rc ≡ (e.step s p).0
      → x ≡ stmt_failure e (e.step s p).1 p rc
      → eq_ℤ rc zeta_row ≡ false
      → eq_ℤ rc zeta_done ≡ false
      → w.engine ≡ (e.step s p).1
      → Fetches e p places s [] x w.engine
  failed_now x w q z other bad y =
      subst (λ x. Fetches e p places s [] x w.engine)
        (sym
          (z ∙ ap (λ t. stmt_failure e t p rc) (sym y) ∙ ap (λ c. stmt_failure e w.engine p c) q))
        (fails s w.engine (ap (λ c. eq_ℤ c zeta_row) (sym q) ∙ other)
          (ap (λ c. eq_ℤ c zeta_done) (sym q) ∙ bad) y)

module _ {e : Platform} (h : Heap) (c : Conn) (p : ℕ) (owner : Ptr) (sql : Bytes) (b : Bool)
    (places : ℕ) where
  after_step-Nexts :
      (s : e.State) (rc : ℤ) (w : World e Conn)
      → rc ≡ (e.step s p).0
      → In (e.step s p).1 (put h p (some (statement owner (eq_ℤ rc zeta_row)))) c w
      → Returns
          (after_step (on_handle p sql b) going places rc w)
          (λ r. Nexts h c p owner places s r.0 r.1)
  unfolding after_step
  after_step-Nexts s rc w q i = elim (Bool-cases (eq_ℤ rc zeta_row)) [
    | inl row ↦
        rw (row, after_step)
          (Returns-mono _
            (λ r (x, j).
              subst (λ y. Nexts h c p owner places s y r.1) (sym x)
                (ap (λ c. eq_ℤ c zeta_row) (sym q) ∙ row, refl, refl, j))
            ((read_row-Tells p owner (put_same h p _) sql b going places).at w
              (subst (λ z. In (e.step s p).1 (put h p (some (statement owner z))) c w) row i)))
    | inr other ↦ elim (Bool-cases (eq_ℤ rc zeta_done)) [
      | inl over ↦
          rw (other, over, after_step)
            (Returns-returns _ (over_now s rc w q other over i.engine, (_, i.at)))
      | inr bad ↦
          rw (other, bad, after_step)
            (Returns-chain _ _ (stmt_error_known p owner _ (put_same h p _) _ rc w i) (λ r (x, j).
              Returns-returns _ (failed_now s rc r.0 r.1 q x other bad j.engine, (_, j.at))))
    ]
  ]

  next-Nexts :
      (s : e.State) (row : Bool) (w : World e Conn)
      → In s (put h p (some (statement owner row))) c w
      → Returns (next (on_handle p sql b) going places w) (λ r. Nexts h c p owner places s r.0 r.1)
  unfolding next
  next-Nexts s row w i =
      Returns-chain _ _ (zeta_step-Returns w i.at p owner row (put_same h p _)) (λ r (x, y, a).
        after_step-Nexts s r.0 r.1 (x ∙ ap (λ t. (e.step t p).0) i.engine) (record {
          at = At-heap (put_twice h p _ _) a;
          engine = y ∙ ap (λ t. (e.step t p).1) i.engine;
        }))

-- What a client gets of the rows, and that no other C object has changed.
abbrev pub Fetched :
    {e : Platform}
    → Heap
    → Conn
    → ℕ
    → Ptr
    → ℕ
    → e.State
    → List (List (Value e)) × GoError
    → World e Conn
    → Type 0
Fetched {e} h c p owner places s r w = Fetches e p places s r.0 r.1 w.engine × Moved h c p owner w

module _ {e : Platform} (h : Heap) (c : Conn) (p : ℕ) (owner : Ptr) (sql : Bytes) (b : Bool)
    (places : ℕ) where
  rest-Fetched :
      (f : ℕ) (s : e.State) (x : Result (List (Value e)) × RowState) (w : World e Conn)
      → Nexts h c p owner places s x w
      → (eq_ℤ (e.step s p).0 zeta_row ≡ true
          → (w : World e Conn) → In (e.step s p).1 (put h p (some (statement owner true))) c w
          → Returns
              (fetch f (on_handle p sql b) places going w)
              (λ r. Fetched h c p owner places (e.step s p).1 r.0 r.1))
      → Returns
          (rest_of x (fetch f (on_handle p sql b) places) w)
          (λ r. Fetched h c p owner places s r.0 r.1)
  unfolding rest_of
  rest-Fetched f s (err x, r) w (k, a) more = Returns-returns _ (k, a)
  rest-Fetched f s (ok vs, r) w (row, q, y, i) more =
      rw (q, y, rest_of)
        (Returns-chain _ _ (more row w i)
          (λ r' (k, a). Returns-returns _ (takes s r'.1.engine r'.0.0 r'.0.1 row k, a)))

  fetch-Fetched :
      (f : ℕ) (s : e.State) (row : Bool) (w : World e Conn)
      → ends e f s p ≡ true
      → In s (put h p (some (statement owner row))) c w
      → Returns
          (fetch f (on_handle p sql b) places going w)
          (λ r. Fetched h c p owner places s r.0 r.1)
  unfolding fetch
  fetch-Fetched zero s row w halts i = cc
  fetch-Fetched (suc f) s row w halts i =
      Returns-chain _ _ (next-Nexts h c p owner sql b places s row w i) (λ r k.
        rest-Fetched f s r.0 r.1 k
          (λ again w' j. fetch-Fetched f (e.step s p).1 true w' (or_right _ _ again halts) j))

module _ {e : Platform} (h : Heap) (c : Conn) (p : ℕ) (owner : Ptr) (sql : Bytes) (b : Bool)
    (places f : ℕ) (s : e.State) where
  -- The row that the step of `Query` has fetched is the first that `Next` answers.
  pub pending-Fetched :
      (w : World e Conn)
      → eq_ℤ (e.step s p).0 zeta_row ≡ true
      → ends e f (e.step s p).1 p ≡ true
      → In (e.step s p).1 (put h p (some (statement owner true))) c w
      → Returns
          (fetch (suc f) (on_handle p sql b) places pending_row w)
          (λ r. Fetched h c p owner places s r.0 r.1)
  unfolding fetch next
  pending-Fetched w row halts i =
      Returns-chain _ _ ((read_row-Tells p owner (put_same h p _) sql b pending_row places).at w i)
        (λ r (x, j).
          rest-Fetched h c p owner sql b places f s r.0 r.1
            (subst (λ y. Nexts h c p owner places s y r.1) (sym x) (row, refl, refl, j))
            (λ _ w' k. fetch-Fetched h c p owner sql b places f (e.step s p).1 true w' halts k))

  pub done_rows-Fetched :
      (w : World e Conn)
      → Fetched h c p owner places s ([], eof) w
      → Returns
          (fetch (suc f) (on_handle p sql b) places done_rows w)
          (λ r. Fetched h c p owner places s r.0 r.1)
  unfolding fetch next rest_of
  done_rows-Fetched w k = Returns-returns _ k
