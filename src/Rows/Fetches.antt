-- ===== src/Rows/Fetches.antt =====
-- The loop of a client over the rows of a query against the steps of the engine.
use zeta_go.Prelude.{
  ℕ, zero, suc, ◌≡◌, refl, sym, ap, ◌∙◌, Bool, Bool-cases, true, false, inl, inr, Option, none,
  some, List, [], ◌∷◌,
}
use mathlib.Core.Path.{subst}
use zeta_go.Prelude.Int.{ℤ, eq_ℤ}
use zeta_go.Machine.{Ptr, Platform, World, M, pure, ◌>>=◌, exhausted, Heap, put, statement}
use zeta_go.Machine.Rules.{Returns, Returns-returns, Returns-chain}
use zeta_go.Machine.Heaps.{At-heap}
use zeta_go.Machine.Known.{In, In-heap}
use zeta_go.Capi.{zeta_row, zeta_done}
use zeta_go.Capi.Rules.{zeta_step-Returns}
use zeta_go.Capi.Known.{zeta_finalize_known}
use zeta_go.Errors.{GoError, Result}
use zeta_go.Errors.Rules.{put_fresh, put_same, put_twice}
use zeta_go.Params.Reference.{stmt_error_known}
use zeta_go.Columns.{Dest, Stored}
use zeta_go.Database.{Database}
use zeta_go.Database.Contract.{ends, or_right, held, idle}
use zeta_go.Database.Executes.{unlock_known}
use zeta_go.Rows.Scanned.{at_row_of, scanned, scan-scanned}
use zeta_go.Rows.Yields.{Stops}
use zeta_go.Rows.{Rows, close, stop, after_next, next, scan}

-- What `Scan` answers at a row: the values, and the error if there is one.
abbrev pub Answer : Platform → Type 0
Answer e = List (Stored e) × Result (Unit {0})

module _ {e : Platform} where
  unfoldable pub rest_of :
      List Dest
      → Bool × Rows
      → (Rows → M e Database (List (Answer e) × Rows))
      → M e Database (List (Answer e) × Rows)
  rest_of ds (false, r) k = pure ([], r)
  rest_of ds (true, r) k = do a ← scan r ds; rest ← k r; pure (a ∷ rest.0, rest.1)

  -- `for rows.Next() { rows.Scan(…) }`: what `Scan` answers at each row, and the iterator.
  unfoldable pub fetch : ℕ → List Dest → Rows → M e Database (List (Answer e) × Rows)
  unfolding rest_of
  fetch zero ds r w = exhausted
  fetch (suc f) ds r w = (do b ← next r; rest_of ds b (fetch f ds)) w

-- The rows that the engine gives, as `Scan` reads them, and how they end.
pub data Fetches (e : Platform) (p : ℕ) (ds : List Dest)
    : e.State → List (Answer e) → Option GoError → e.State → Type 0 where
  finished :
      (s t : e.State) (x : Option GoError)
      → Stops e p s x
      → t ≡ (e.step s p).1
      → Fetches e p ds s [] x t
  takes :
      (s u : e.State) (rows : List (Answer e)) (x : Option GoError)
      → eq_ℤ (e.step s p).0 zeta_row ≡ true
      → Fetches e p ds (e.step s p).1 rows x u
      → Fetches e p ds s (scanned e (e.step s p).1 p ds ∷ rows) x u

-- What `Next` answers after the step from `s`: a row, or the end, with the statement finalized.
abbrev Nexts :
    {e : Platform} → Heap → Ptr → ℕ → Option ℕ → e.State → Bool × Rows → World e Database → Type 0
Nexts {e} h ptr p owner s (true, r) w =
    (eq_ℤ (e.step s p).0 zeta_row ≡ true)
    × (r ≡ at_row_of p)
    × In (e.step s p).1 (put h p (some (statement owner true))) (held ptr) w
Nexts {e} h ptr p owner s (false, r) w =
    Stops e p s r.last_err × In (e.finalize (e.step s p).1 p) h (idle ptr) w

module _ {e : Platform} (h : Heap) (ptr : Ptr) (p : ℕ) (owner : Option ℕ) (new : h p ≡ none) where
  stop-Nexts :
      (s : e.State) (row : Bool) (x : Option GoError) (w : World e Database)
      → Stops e p s x
      → In (e.step s p).1 (put h p (some (statement owner row))) (held ptr) w
      → Returns
          (stop (record { stmt = some p; is_closed = false; last_err = x; at_row = false }) w)
          (λ r. Nexts h ptr p owner s r.0 r.1)
  unfolding stop close
  stop-Nexts s row x w q i =
      Returns-chain _ _
        (Returns-chain _ _ (zeta_finalize_known w i p owner row (put_same h p _)) (λ r b.
          Returns-chain _ _ (unlock_known ptr r.1 (In-heap (put_fresh h p _ new) b)) (λ r' c.
            Returns-returns
              {P = λ r.
                (r.0 ≡ record { stmt = none; is_closed = true; last_err = x; at_row = false })
                × In (e.finalize (e.step s p).1 p) h (idle ptr) r.1}
              _ (refl, c))))
        (λ r (y, c). Returns-returns _ (subst (λ (t : Rows). Stops e p s t.last_err) (sym y) q, c))

  after_next-Nexts :
      (s : e.State) (at : Bool) (rc : ℤ) (w : World e Database)
      → rc ≡ (e.step s p).0
      → In (e.step s p).1 (put h p (some (statement owner (eq_ℤ rc zeta_row)))) (held ptr) w
      → Returns
          (after_next
            (record { stmt = some p; is_closed = false; last_err = none; at_row = at })
            rc
            w)
          (λ r. Nexts h ptr p owner s r.0 r.1)
  unfolding after_next
  after_next-Nexts s at rc w q i = elim (Bool-cases (eq_ℤ rc zeta_row)) [
    | inl row ↦
        rw (row, after_next)
          (Returns-returns _ (
            ap (λ c. eq_ℤ c zeta_row) (sym q) ∙ row,
            refl,
            subst (λ z. In (e.step s p).1 (put h p (some (statement owner z))) (held ptr) w) row i,
          ))
    | inr other ↦ elim (Bool-cases (eq_ℤ rc zeta_done)) [
      | inl over ↦
          rw (other, over, after_next)
            (stop-Nexts s _ none w
              (ap (λ c. eq_ℤ c zeta_row) (sym q) ∙ other, ap (λ c. eq_ℤ c zeta_done) (sym q) ∙ over)
              i)
      | inr bad ↦
          rw (other, bad, after_next)
            (Returns-chain _ _ (stmt_error_known p owner _ (put_same h p _) _ rc w i) (λ r (x, j).
              stop-Nexts s _ (some r.0) r.1
                (
                  ap (λ c. eq_ℤ c zeta_row) (sym q) ∙ other,
                  ap (λ c. eq_ℤ c zeta_done) (sym q) ∙ bad,
                  rw (← q) x,
                )
                j))
    ]
  ]

  next-Nexts :
      (s : e.State) (row at : Bool) (w : World e Database)
      → In s (put h p (some (statement owner row))) (held ptr) w
      → Returns
          (next (record { stmt = some p; is_closed = false; last_err = none; at_row = at }) w)
          (λ r. Nexts h ptr p owner s r.0 r.1)
  unfolding next
  next-Nexts s row at w i =
      Returns-chain _ _ (zeta_step-Returns w i.at p owner row (put_same h p _)) (λ r (x, y, a).
        after_next-Nexts s at r.0 r.1 (x ∙ ap (λ t. (e.step t p).0) i.engine) (record {
          at = At-heap (put_twice h p _ _) a;
          engine = y ∙ ap (λ t. (e.step t p).1) i.engine;
        }))

-- What the client gets, with the statement finalized and the mutex free.
abbrev pub Fetched :
    {e : Platform}
    → Heap
    → Ptr
    → ℕ
    → List Dest
    → e.State
    → List (Answer e) × Rows
    → World e Database
    → Type 0
Fetched {e} h ptr p ds s r w =
    (u : e.State) × Fetches e p ds s r.0 r.1.last_err u × In (e.finalize u p) h (idle ptr) w

module _ {e : Platform} (h : Heap) (ptr : Ptr) (p : ℕ) (owner : Option ℕ) (new : h p ≡ none)
    (ds : List Dest) where
  rest-Fetched :
      (f : ℕ) (s : e.State) (x : Bool × Rows) (w : World e Database)
      → Nexts h ptr p owner s x w
      → (eq_ℤ (e.step s p).0 zeta_row ≡ true
          → (w : World e Database)
          → In (e.step s p).1 (put h p (some (statement owner true))) (held ptr) w
          → Returns (fetch f ds (at_row_of p) w) (λ r. Fetched h ptr p ds (e.step s p).1 r.0 r.1))
      → Returns (rest_of ds x (fetch f ds) w) (λ r. Fetched h ptr p ds s r.0 r.1)
  unfolding rest_of
  rest-Fetched f s (false, r) w (q, i) more =
      Returns-returns _ ((e.step s p).1, finished s _ r.last_err q refl, i)
  rest-Fetched f s (true, r) w (row, q, i) more =
      rw (q, rest_of)
        (Returns-chain _ _ ((scan-scanned p owner (put_same h p _) ds).at w i) (λ a (x, j).
          Returns-chain _ _ (more row a.1 j) (λ r' (u, k, b).
            rw x (Returns-returns _ (u, takes s u r'.0.0 r'.0.1.last_err row k, b)))))

  -- The loop ends if the statement does, with a call of `Next` for each row and one for the end.
  pub fetch-Fetched :
      (f : ℕ) (s : e.State) (row at : Bool) (w : World e Database)
      → ends e f s p ≡ true
      → In s (put h p (some (statement owner row))) (held ptr) w
      → Returns
          (fetch f ds (record { stmt = some p; is_closed = false; last_err = none; at_row = at }) w)
          (λ r. Fetched h ptr p ds s r.0 r.1)
  unfolding fetch
  fetch-Fetched zero s row at w halts i = cc
  fetch-Fetched (suc f) s row at w halts i =
      Returns-chain _ _ (next-Nexts h ptr p owner new s row at w i) (λ r k.
        rest-Fetched f s r.0 r.1 k
          (λ again w' j. fetch-Fetched f (e.step s p).1 true true w' (or_right _ _ again halts) j))
