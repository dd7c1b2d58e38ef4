-- ===== src/Example/Loop.antt =====
-- The loop of the example over the rows of its query.
use zeta_go.Prelude.{
  ℕ, zero, suc, ◌≡◌, refl, sym, ◌∙◌, Bool, true, false, Option, none, some, List, [], ◌∷◌, ◌++◌,
}
use mathlib.Core.Path.{subst}
use mathlib.Core.List.{append-nil, append_assoc}
use zeta_go.Prelude.Int.{eq_ℤ}
use zeta_go.Machine.{Ptr, Platform, World, M, Heap, put, statement}
use zeta_go.Machine.Rules.{Returns, Returns-returns, Returns-chain, Returns-mono}
use zeta_go.Machine.Heaps.{At}
use zeta_go.Machine.Known.{In}
use zeta_go.Capi.{zeta_row}
use zeta_go.Errors.{GoError, Result, ok, err}
use zeta_go.Errors.Rules.{put_same}
use zeta_go.Columns.{Stored}
use zeta_go.Database.{Database}
use zeta_go.Database.Contract.{ends, held, idle, or_right}
use zeta_go.Rows.{Rows}
use zeta_go.Rows.Protocol.{Iterates, reading}
use zeta_go.Rows.Scanned.{at_row_of, scan-scanned}
use zeta_go.Rows.Yields.{Stops, Took, next-Took}
use zeta_go.Example.{Shown, Run, row, user_columns, scanned, advanced, show_rows}

-- What `Scan` reads of the current row.
abbrev pub read : (e : Platform) → ℕ → e.State → List (Stored e) × Result (Unit {0})
read e p s = zeta_go.Rows.Scanned.scanned e s p user_columns

-- The lines that the loop prints of the engine's rows from a state on, the error of the `Scan` that
-- ends the process, if any, and that of the step that ends the statement.
pub data Prints (e : Platform) (p : ℕ)
    : e.State → List (Shown e) → Option GoError → Option GoError → Type 0 where
  over : (s : e.State) (x : Option GoError) → Stops e p s x → Prints e p s [] none x
  refuses :
      (s : e.State) (vs : List (Stored e)) (x : GoError)
      → eq_ℤ (e.step s p).0 zeta_row ≡ true
      → read e p (e.step s p).1 ≡ (vs, err x)
      → Prints e p s [] (some x) none
  prints :
      (s : e.State) (vs : List (Stored e)) (lines : List (Shown e)) (x y : Option GoError)
      → eq_ℤ (e.step s p).0 zeta_row ≡ true
      → read e p (e.step s p).1 ≡ (vs, ok tt)
      → Prints e p (e.step s p).1 lines x y
      → Prints e p s (row vs ∷ lines) x y

module _ {e : Platform} (h : Heap) (ptr : Ptr) (p : ℕ) where
  -- The iterator that the loop leaves: closed with the mutex free, or, after an error of `Scan`, open.
  abbrev pub Left : Option GoError → Rows → World e Database → Type 0
  Left none r w = (r.is_closed ≡ true) × At h (idle ptr) w
  Left (some x) r w = Iterates h ptr r w

  abbrev pub Shows : e.State → List (Shown e) → Rows × Run e → World e Database → Type 0
  Shows s out (r, (out', x)) w =
      (lines : List (Shown e)) × Prints e p s lines x r.last_err
      × (out' ≡ out ++ lines)
      × Left x r w

  module _ (owner : Option ℕ) (new : h p ≡ none) (s : e.State) (out : List (Shown e))
      (rest : Rows → List (Shown e) → M e Database (Rows × Run e)) where
    one_more :
        (vs : List (Stored e)) (t : Rows × Run e) (w : World e Database)
        → eq_ℤ (e.step s p).0 zeta_row ≡ true
        → read e p (e.step s p).1 ≡ (vs, ok tt)
        → Shows (e.step s p).1 (out ++ row vs ∷ []) t w
        → Shows s out t w
    one_more vs (r, (out', x)) w more q (lines, k, z, left) = (
      row vs ∷ lines,
      prints s vs lines x r.last_err more q k,
      z ∙ append_assoc out (row vs ∷ []) lines,
      left,
    )

    scanned-Shows :
        (v : List (Stored e) × Result (Unit {0})) (w : World e Database)
        → eq_ℤ (e.step s p).0 zeta_row ≡ true
        → read e p (e.step s p).1 ≡ v
        → In (e.step s p).1 (put h p (some (statement owner true))) (held ptr) w
        → ((out' : List (Shown e)) (w' : World e Database)
            → In (e.step s p).1 (put h p (some (statement owner true))) (held ptr) w'
            → Returns (rest (at_row_of p) out' w') (λ r. Shows (e.step s p).1 out' r.0 r.1))
        → Returns (scanned v (at_row_of p) out rest w) (λ r. Shows s out r.0 r.1)
    scanned-Shows (vs, ok u) w more q i again =
        Returns-mono _ (λ r b. one_more vs r.0 r.1 more q b) (again (out ++ row vs ∷ []) w i)
    scanned-Shows (vs, err x) w more q i again = Returns-returns _ (
      [],
      refuses s vs x more q,
      sym (append-nil out),
      reading p owner true true w new (λ z. refl) i.at,
    )

    advanced-Shows :
        (b : Bool) (r : Rows) (w : World e Database)
        → Took h ptr p owner s b r w
        → (eq_ℤ (e.step s p).0 zeta_row ≡ true
            → (out' : List (Shown e)) (w' : World e Database)
            → In (e.step s p).1 (put h p (some (statement owner true))) (held ptr) w'
            → Returns (rest (at_row_of p) out' w') (λ r. Shows (e.step s p).1 out' r.0 r.1))
        → Returns (advanced b r out rest w) (λ r. Shows s out r.0 r.1)
    advanced-Shows false r w (q, shut, a) again =
        Returns-returns _ ([], over s r.last_err q, sym (append-nil out), (shut, a))
    advanced-Shows true r w (here, more, at, a) again = rw here (
        Returns-chain _ _
          ((scan-scanned p owner (put_same h p _) user_columns).at w
            (record { at = a; engine = at }))
          (λ t (q, i). scanned-Shows t.0 t.1 more (sym q) i (again more)))

-- On the rows of a live statement that ends within the fuel, the loop returns. It prints one line for
-- each row that the engine gives, in order, with the id, the name and the embedding that `Scan`
-- reads of it, up to the step that gives no row; the iterator is then closed and holds that step's
-- error, if any, its statement is gone and the mutex is free. At the first row that `Scan` refuses,
-- the loop stops with that error, and the iterator is still open.
pub show_rows-Shows :
    {e : Platform} {h : Heap} (ptr : Ptr) (p : ℕ) (owner : Option ℕ) (f : ℕ) (cur at : Bool)
    (out : List (Shown e)) (w : World e Database)
    → h p ≡ none
    → ends e f w.engine p ≡ true
    → At (put h p (some (statement owner cur))) (held ptr) w
    → Returns
        (show_rows f
          (record { stmt = some p; is_closed = false; last_err = none; at_row = at })
          out
          w)
        (λ r. Shows h ptr p w.engine out r.0 r.1)
unfolding show_rows
show_rows-Shows ptr p owner zero cur at out w new halts a = cc
show_rows-Shows {h = h} ptr p owner (suc f) cur at out w new halts a =
    Returns-chain _ _ (next-Took ptr p owner w.engine new cur at w refl a) (λ r b.
      advanced-Shows h ptr p owner new w.engine out (show_rows f) r.0.0 r.0.1 r.1 b
        (λ more out' w' i.
          subst
            (λ s. Returns (show_rows f (at_row_of p) out' w') (λ r. Shows h ptr p s out' r.0 r.1))
            i.engine
            (show_rows-Shows ptr p owner f true true out' w' new
              (rw i.engine (or_right _ _ more halts)) i.at)))
