-- ===== src/Database/Executes.antt =====
-- `Exec` of a `Database` and of a transaction against what the engine does with a statement from its
-- prepare to its end.
use zeta_go.Prelude.{ℕ, ◌≡◌, refl, sym, ap, ◌∙◌, true, false, Option, none, some, List, arith}
use mathlib.Core.Path.{subst}
use zeta_go.Prelude.Int.{ℤ}
use zeta_go.Machine.{
  Bytes, Ptr, Platform, World, M, Heap, Creation, created, refused, put, database, statement,
  c_string, set_go, ◌>>◌, deferring,
}
use zeta_go.Machine.Rules.{Returns, Returns-returns, Returns-chain, Returns-mono}
use zeta_go.Machine.Heaps.{At, At-go, get_go-chain}
use zeta_go.Machine.Known.{In, In-heap, In-go, set_go_known}
use zeta_go.Capi.{until_nul}
use zeta_go.Capi.Known.{c_string_of_known, zeta_prepare_known, zeta_finalize_known}
use zeta_go.Errors.{GoError, Result, ok, err}
use zeta_go.Errors.Rules.{put_fresh, put_same}
use zeta_go.Params.{Param}
use zeta_go.Params.Reference.{all_bound, bind_params-Agrees}
use zeta_go.Database.Contract.{IsOpen, Halts, Moved, Moved-again, held, idle}
use zeta_go.Database.Exec.{IsReady, IsReady-At}
use zeta_go.Database.Loop.{Runs, drain-Runs}
use zeta_go.Database.Reference.{Prepared, got, lost, prepare_failure, prepared_known, free-Prepared}
use zeta_go.Database.{
  Database, checked, lock, unlock, prepare_locked, drain, run_statement, exec_locked, exec,
}

-- How a statement is run with its parameters: `f` prepares it.
pub data Executes (e : Platform) (d : ℕ) (f : ℕ → e.State → Creation × e.State)
    (params : List (Param e)) (s : e.State) : Result ℤ → e.State → Type 0 where
  unprepared :
      (n : ℕ) (t : e.State) (m : Option Bytes)
      → f n s ≡ (refused m, t)
      → Executes e d f params s (err (prepare_failure e t d m)) t
  unbound :
      (n : ℕ) (t u : e.State) (x : GoError)
      → f n s ≡ (created, t)
      → all_bound e n 1 params t ≡ (err x, u)
      → Executes e d f params s (err x) (e.finalize u n)
  ran :
      (n : ℕ) (t u v : e.State) (r : Result ℤ)
      → f n s ≡ (created, t)
      → all_bound e n 1 params t ≡ (ok tt, u)
      → Runs e d n u r v
      → Executes e d f params s r (e.finalize v n)

-- The part of it from the statement `n` on, before it is finalized.
abbrev Ends : (e : Platform) → ℕ → ℕ → Result (Unit {0}) × e.State → Result ℤ → e.State → Type 0
Ends e d n (err x, u) r v = (r ≡ err x) × (v ≡ u)
Ends e d n (ok y, u) r v = Runs e d n u r v

Ends-Executes :
    {e : Platform} {d : ℕ} {f : ℕ → e.State → Creation × e.State} {params : List (Param e)}
    {s : e.State} (n : ℕ) (t : e.State) (b : Result (Unit {0}) × e.State) (r : Result ℤ)
    (v : e.State)
    → f n s ≡ (created, t)
    → all_bound e n 1 params t ≡ b
    → Ends e d n b r v
    → Executes e d f params s r (e.finalize v n)
Ends-Executes n t (err x, u) r v q y z = rw (z.0, z.1) (unbound n t u x q y)
Ends-Executes n t (ok x, u) r v q y z = ran n t u v r q y z

module _ {e : Platform} (h : Heap) (d : ℕ) (live : h d ≡ some database) where
  checked_known :
      (fuel n : ℕ) (owner : Option ℕ) (b : Result (Unit {0})) (u : e.State) (w : World e Database)
      → Halts e fuel
      → h n ≡ none
      → In u (put h n (some (statement owner false))) (held (some d)) w
      → Returns
          (checked b (λ _. drain fuel (some d) (some n)) w)
          (λ r. Ends e d n (b, u) r.0 r.1.engine × Moved h (held (some d)) n owner r.1)
  checked_known fuel n owner (err x) u w halts fresh i =
      Returns-returns _ ((refl, i.engine), (false, i.at))
  checked_known fuel n owner (ok y) u w halts fresh i =
      Returns-mono _
        (λ r (m, k).
          (subst (λ s. Runs e d n s r.0 r.1.engine) i.engine m, Moved-again h n owner false r.1 k))
        (drain-Runs fuel _ d n owner false w (ground (arith, live, fresh)) (put_same h n _)
          (halts w.engine n) i.at)

  pub run_statement_known :
      (fuel n : ℕ) (owner : Option ℕ) (params : List (Param e)) (t : e.State) (w : World e Database)
      → Halts e fuel
      → h n ≡ none
      → In t (put h n (some (statement owner false))) (held (some d)) w
      → Returns (run_statement fuel (some n) params w) (λ r.
        (v : e.State) × Ends e d n (all_bound e n 1 params t) r.0 v
        × In (e.finalize v n) h (held (some d)) r.1)
  unfolding run_statement
  run_statement_known fuel n owner params t w halts fresh i =
      Returns-chain _ _
        (Returns-chain _ _ (bind_params-Agrees n owner false (put_same h n _) params t w i)
          (λ r (x, b). get_go-chain r.1 b.at _ (
            subst
              (λ z. Returns (checked z (λ _. drain fuel (some d) (some n)) r.1) (λ r'.
                Ends e d n (all_bound e n 1 params t) r'.0 r'.1.engine
                × Moved h (held (some d)) n owner r'.1))
              (sym x) (checked_known fuel n owner _ _ r.1 halts fresh b))))
        (λ r (k, (row, a)).
          Returns-chain _ _
            (zeta_finalize_known r.1 (record { at = a; engine = refl }) n owner row
              (put_same h n _))
            (λ r' c. Returns-returns _ (r.1.engine, k, In-heap (put_fresh h n _ fresh) c)))

module _ {e : Platform} {s : e.State} (h : Heap) (d : ℕ) (live : h d ≡ some database) where
  -- A statement that has been prepared is run, and finalized.
  pub executed :
      (fuel : ℕ) (owner : Option ℕ) (f : ℕ → e.State → Creation × e.State) (params : List (Param e))
      (r : Result Ptr) (w : World e Database)
      → Halts e fuel
      → Prepared s h (held (some d)) d (statement owner false) f r w
      → Returns
          (checked r (λ stmt. run_statement fuel stmt params) w)
          (λ r'. Executes e d f params s r'.0 r'.1.engine × At h (held (some d)) r'.1)
  executed fuel owner f params r w halts (got n t _ q fresh i) =
      Returns-mono _
        (λ r' (v, k, b). (
          subst (Executes e d f params s r'.0) (sym b.engine)
              (Ends-Executes n t (all_bound e n 1 params t) r'.0 v q refl k),
          b.at,
        ))
        (run_statement_known h d live fuel n owner params t w halts fresh i)
  executed fuel owner f params r w halts (lost n t m _ q i) =
      Returns-returns _
        (subst (Executes e d f params s _) (sym i.engine) (unprepared n t m q), i.at)

  pub prepare_locked_known :
      (sql : Bytes) (w : World e Database)
      → In s h (held (some d)) w
      → Returns (prepare_locked sql w) (λ r.
        Prepared s h
          (held (some d))
          d
          (statement none false)
          (λ n s. e.prepare s n d (until_nul sql))
          r.0
          r.1)
  unfolding prepare_locked
  prepare_locked_known sql w i = Returns-chain _ _ (c_string_of_known w i) (λ r (n, here, fresh, b).
      let db : put h n (some c_string) d ≡ some database = ground (arith, live, fresh) in
      rw here (
        Returns-chain _ _
          (get_go-chain r.1 b.at _ (
            Returns-chain _ _ (zeta_prepare_known r.1 b d sql db)
              (λ r' c. prepared_known d db _ _ r'.0 r'.1 c)))
          (λ r' c. free-Prepared d n _ _ r'.0 r'.1 fresh c)))

module _ {e : Platform} {s : e.State} {h : Heap} (p : Ptr) (w : World e Database) where
  pub lock_known : In s h (idle p) w → Returns (lock w) (λ r. In s h (held p) r.1)
  unfolding lock set_go
  lock_known i =
      rw (ap (λ (g : Database). g.locked) i.at.go, lock)
        (Returns-mono _ (λ r. In-go (ap (λ (g : Database). record g { locked = true }) i.at.go))
          (set_go_known w i (record w.go { locked = true })))

  pub unlock_known : In s h (held p) w → Returns (unlock w) (λ r. In s h (idle p) r.1)
  unfolding unlock set_go
  unlock_known i =
      rw (ap (λ (g : Database). g.locked) i.at.go, unlock)
        (Returns-mono _ (λ r. In-go (ap (λ (g : Database). record g { locked = false }) i.at.go))
          (set_go_known w i (record w.go { locked = false })))

module _ {e : Platform} {A : Type 0} {s : e.State} {h : Heap} {p : Ptr} (body : M e Database A)
    (Q : A → e.State → Type 0) where
  -- An action under the mutex.
  pub critical_known :
      ((w : World e Database)
        → In s h (held p) w
        → Returns (body w) (λ r. Q r.0 r.1.engine × At h (held p) r.1))
      → (w : World e Database) → In s h (idle p) w
      → Returns ((lock >> deferring unlock body) w) (λ r. Q r.0 r.1.engine × At h (idle p) r.1)
  critical_known run w i = Returns-chain _ _ (lock_known p w i) (λ r j.
      Returns-chain _ _ (run r.1 j) (λ r' (x, a).
        Returns-chain _ _ (unlock_known p r'.1 (record { at = a; engine = refl }))
          (λ r'' b. Returns-returns _ (subst (Q r'.0) (sym b.engine) x, b.at))))

module _ {e : Platform} {s : e.State} {h : Heap} (d : ℕ) (live : h d ≡ some database) where
  exec_known :
      (fuel : ℕ) (sql : Bytes) (params : List (Param e)) (w : World e Database)
      → Halts e fuel
      → In s h (idle (some d)) w
      → Returns (exec fuel sql params w) (λ r.
        Executes e d (λ n s. e.prepare s n d (until_nul sql)) params s r.0 r.1.engine
        × At h (idle (some d)) r.1)
  unfolding exec exec_locked
  exec_known fuel sql params w halts i =
      critical_known _ _
        (λ w' j. get_go-chain w' j.at _ (
          Returns-chain _ _ (prepare_locked_known h d live sql w' j)
            (λ r b. executed h d live fuel none _ params r.0 r.1 halts b)))
        w i

-- On an open database at rest, `Exec` takes the engine through the statement: the engine prepares it
-- and gets the parameters in order, each as the value that it is for the engine, and then is stepped
-- to the statement's end; whatever comes first ends it, and the statement that was prepared is
-- finalized. `Exec` returns what that means, the count of changes or the error, and leaves the C
-- objects, the handle and the mutex as they were, if every statement ends within the fuel.
pub exec-Executes :
    {e : Platform} (w : World e Database) (r : IsReady w) (fuel d : ℕ) (sql : Bytes)
    (params : List (Param e))
    → Halts e fuel
    → w.go.handle ≡ some d
    → Returns (exec fuel sql params w) (λ r'.
      Executes e d (λ n s. e.prepare s n d (until_nul sql)) params w.engine r'.0 r'.1.engine
      × At w.heap w.go r'.1)
exec-Executes {e} w r fuel d sql params halts q =
    let a = IsReady-At w r in
    let at_d = ap (λ x. idle x) q in
    Returns-mono _ (λ r' (x, b). (x, At-go (sym (a.go ∙ at_d)) b))
      (exec_known d (subst (IsOpen w.heap) q r.opened) fuel sql params w halts
        (record { at = At-go at_d a; engine = refl }))
