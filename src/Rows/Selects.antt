-- ===== src/Rows/Selects.antt =====
-- A query over the direct API against what the engine does with it, from its prepare to its end.
use zeta_go.Prelude.{ℕ, ◌≡◌, refl, sym, ap, ◌∙◌, false, Option, none, some, List}
use mathlib.Core.Path.{subst}
use zeta_go.Machine.{
  Bytes, Ptr, Platform, World, M, pure, ◌>>=◌, get_go, Heap, Creation, created, refused, put,
  database, statement,
}
use zeta_go.Machine.Rules.{Returns, Returns-returns, Returns-chain, Returns-mono, Returns-assoc}
use zeta_go.Machine.Heaps.{At, At-go, get_go-chain}
use zeta_go.Machine.Known.{In, In-heap}
use zeta_go.Capi.{until_nul}
use zeta_go.Capi.Known.{zeta_finalize_known}
use zeta_go.Errors.{GoError, Result, ok, err}
use zeta_go.Errors.Rules.{put_fresh, put_same}
use zeta_go.Params.{Param, bind_params}
use zeta_go.Params.Reference.{all_bound, bind_params-Agrees}
use zeta_go.Columns.{Dest}
use zeta_go.Database.{Database, lock, unlock, prepare_locked}
use zeta_go.Database.Contract.{IsOpen, Halts, held, idle}
use zeta_go.Database.Exec.{IsReady, IsReady-At}
use zeta_go.Database.Executes.{lock_known, unlock_known, prepare_locked_known}
use zeta_go.Database.Reference.{Prepared, got, lost, prepare_failure}
use zeta_go.Rows.Fetches.{Answer, Fetches, fetch, fetch-Fetched}
use zeta_go.Rows.{Rows, rows_of, start_rows, query}

-- How a query is run with its parameters, and its rows are read: `f` prepares it.
pub data Selects (e : Platform) (d : ℕ) (f : ℕ → e.State → Creation × e.State)
    (params : List (Param e)) (ds : List Dest) (s : e.State)
    : Result (List (Answer e) × Option GoError) → e.State → Type 0 where
  unprepared :
      (n : ℕ) (t : e.State) (m : Option Bytes)
      → f n s ≡ (refused m, t)
      → Selects e d f params ds s (err (prepare_failure e t d m)) t
  unbound :
      (n : ℕ) (t u : e.State) (x : GoError)
      → f n s ≡ (created, t)
      → all_bound e n 1 params t ≡ (err x, u)
      → Selects e d f params ds s (err x) (e.finalize u n)
  fetched :
      (n : ℕ) (t u v : e.State) (rows : List (Answer e)) (x : Option GoError)
      → f n s ≡ (created, t)
      → all_bound e n 1 params t ≡ (ok tt, u)
      → Fetches e n ds u rows x v
      → Selects e d f params ds s (ok (rows, x)) (e.finalize v n)

module _ {e : Platform} where
  -- The rest of a client: the error of `Query`, or its rows and the error that `Err` gives.
  unfoldable pub fetch_query :
      ℕ → List Dest → Result Rows → M e Database (Result (List (Answer e) × Option GoError))
  fetch_query fuel ds (err x) = pure (err x)
  fetch_query fuel ds (ok r) = do out ← fetch fuel ds r; pure (ok (out.0, out.1.last_err))

-- The query has been answered, and the mutex is free.
abbrev pub Selected :
    {e : Platform}
    → Heap
    → Ptr
    → ℕ
    → (ℕ → e.State → Creation × e.State)
    → List (Param e)
    → List Dest
    → e.State
    → Result (List (Answer e) × Option GoError)
    → World e Database
    → Type 0
Selected {e} h ptr d f params ds s r w = Selects e d f params ds s r w.engine × At h (idle ptr) w

module _ {e : Platform} {s : e.State} (h : Heap) (ptr : Ptr) (d : ℕ) (fuel : ℕ)
    (f : ℕ → e.State → Creation × e.State) (params : List (Param e)) (ds : List Dest)
    (halts : Halts e fuel) where
  rows_of_known :
      (n : ℕ) (owner : Option ℕ) (t : e.State) (x : Result (Unit {0})) (u : e.State)
      (w : World e Database)
      → f n s ≡ (created, t)
      → h n ≡ none
      → all_bound e n 1 params t ≡ (x, u)
      → In u (put h n (some (statement owner false))) (held ptr) w
      → Returns
          ((rows_of (some n) x >>= fetch_query fuel ds) w)
          (λ r. Selected h ptr d f params ds s r.0 r.1)
  unfolding rows_of fetch_query
  rows_of_known n owner t (err x) u w q new b i =
      Returns-chain _ _
        (Returns-chain _ _ (zeta_finalize_known w i n owner false (put_same h n _)) (λ r c.
          Returns-chain _ _ (unlock_known ptr r.1 (In-heap (put_fresh h n _ new) c)) (λ r' j.
            Returns-returns {P = λ r. (r.0 ≡ err x) × In (e.finalize u n) h (idle ptr) r.1} _
              (refl, j))))
        (λ r (y, j). rw y (
          Returns-returns _
            (subst (Selects e d f params ds s (err x)) (sym j.engine) (unbound n t u x q b), j.at)))
  rows_of_known n owner t (ok y) u w q new b i =
      Returns-chain _ _ (fetch-Fetched h ptr n owner new ds fuel u false false w (halts u n) i)
        (λ r (v, k, j). Returns-returns _ (
          subst (Selects e d f params ds s _) (sym j.engine)
              (fetched n t u v r.0.0 r.0.1.last_err q b k),
          j.at,
        ))

  -- The part after the prepare, which `Tx.Query` has too.
  pub start_rows_known :
      (owner : Option ℕ) (r : Result Ptr) (w : World e Database)
      → Prepared s h (held ptr) d (statement owner false) f r w
      → Returns
          ((start_rows params r >>= fetch_query fuel ds) w)
          (λ r'. Selected h ptr d f params ds s r'.0 r'.1)
  unfolding start_rows fetch_query
  start_rows_known owner r w (got n t _ q new i) =
      Returns-assoc (bind_params (some n) params w) _ _ (
        Returns-chain _ _ (bind_params-Agrees n owner false (put_same h n _) params t w i)
          (λ r (x, b). rw x (
            rows_of_known n owner t (all_bound e n 1 params t).0 (all_bound e n 1 params t).1 r.1 q
              new refl b)))
  start_rows_known owner r w (lost n t m _ q i) = Returns-assoc (unlock w) _ _ (
      Returns-chain _ _ (unlock_known ptr w i) (λ r j.
        Returns-returns _
          (subst (Selects e d f params ds s _) (sym j.engine) (unprepared n t m q), j.at)))

module _ {e : Platform} where
  -- A client of `Query`: its rows as `Scan` reads them, until `Next` answers false, and `Err`.
  unfoldable pub read_all :
      ℕ
      → Bytes
      → List (Param e)
      → List Dest
      → M e Database (Result (List (Answer e) × Option GoError))
  read_all fuel sql params ds = do r ← query sql params; fetch_query fuel ds r

module _ {e : Platform} {s : e.State} (h : Heap) (d : ℕ) (live : h d ≡ some database) where
  read_all_known :
      (fuel : ℕ) (sql : Bytes) (params : List (Param e)) (ds : List Dest) (w : World e Database)
      → Halts e fuel
      → In s h (idle (some d)) w
      → Returns
          (read_all fuel sql params ds w)
          (λ r. Selected h (some d) d (λ n s. e.prepare s n d (until_nul sql)) params ds s r.0 r.1)
  unfolding read_all query
  read_all_known fuel sql params ds w halts i = Returns-assoc (lock w) _ _ (
      Returns-chain _ _ (lock_known (some d) w i) (λ r j. Returns-assoc (get_go r.1) _ _ (
        get_go-chain r.1 j.at _ (
          Returns-assoc (prepare_locked sql r.1) _ _ (
            Returns-chain _ _ (prepare_locked_known h d live sql r.1 j)
              (λ r' b. start_rows_known h (some d) d fuel _ params ds halts none r'.0 r'.1 b))))))

-- On an open database at rest, a client that calls `Query`, then `Next` and `Scan` until `Next` answers
-- false, and `Err`: if every statement ends within the fuel, all of them return. The engine prepares
-- the statement and gets the parameters in order; if either fails, the client gets the error.
-- Otherwise it gets each row that the engine gives once and in order, with what `Scan` reads of it
-- for the destinations, and from `Err` nothing, or the error that ended the statement. The statement
-- that was prepared is finalized, and the C objects, the handle and the mutex are left as they were.
pub read_all-Selects :
    {e : Platform} (w : World e Database) (r : IsReady w) (fuel d : ℕ) (sql : Bytes)
    (params : List (Param e)) (ds : List Dest)
    → Halts e fuel
    → w.go.handle ≡ some d
    → Returns (read_all fuel sql params ds w) (λ r'.
      Selects e d (λ n s. e.prepare s n d (until_nul sql)) params ds w.engine r'.0 r'.1.engine
      × At w.heap w.go r'.1)
read_all-Selects {e} w r fuel d sql params ds halts q =
    let a = IsReady-At w r in
    let at_d = ap (λ x. idle x) q in
    Returns-mono _ (λ r' (x, b). (x, At-go (sym (a.go ∙ at_d)) b))
      (read_all_known w.heap d (subst (IsOpen w.heap) q r.opened) fuel sql params ds w halts
        (record { at = At-go at_d a; engine = refl }))
