-- ===== src/Database/Exec.antt =====
-- `Exec` and `Close` of a `Database`: they return, and give back what they took.
use zeta_go.Prelude.{ℕ, ◌≤◌, ◌≡◌, refl, ap, sym, true, false, none, some, List}
use zeta_go.Machine.{Bytes, Ptr, Platform, World, M, Heap, deferring, ◌>>◌, set_go, put, database}
use zeta_go.Machine.Rules.{Returns, Returns-returns, Returns-chain, Returns-mono}
use zeta_go.Machine.Heaps.{At, At-go, get_go-chain, set_go-Returns, set_go-chain}
use zeta_go.Capi.Rules.{zeta_close-Returns}
use zeta_go.Errors.{Result, ok, err}
use zeta_go.Params.{Param}
use zeta_go.Database.Contract.{
  IsOpen, Halts, Prepares, held, idle, prepare_locked-Returns, run_statement-Returns,
}
use zeta_go.Database.{Database, checked, lock, unlock, run_statement, exec_locked, exec, close}

-- The heap without the object behind a pointer.
abbrev pub without : Heap → Ptr → Heap
without h none = h
without h (some p) = put h p none

module _ {e : Platform} {h : Heap} (p : Ptr) (w : World e Database) where
  pub lock-Returns : At h (idle p) w → Returns (lock w) (λ r. At h (held p) r.1)
  unfolding lock set_go
  lock-Returns a =
      rw (ap (λ (g : Database). g.locked) a.go, lock)
        (Returns-mono _ (λ r. At-go (ap (λ (g : Database). record g { locked = true }) a.go))
          (set_go-Returns w a (record w.go { locked = true })))

  pub unlock-Returns : At h (held p) w → Returns (unlock w) (λ r. At h (idle p) r.1)
  unfolding unlock set_go
  unlock-Returns a =
      rw (ap (λ (g : Database). g.locked) a.go, unlock)
        (Returns-mono _ (λ r. At-go (ap (λ (g : Database). record g { locked = false }) a.go))
          (set_go-Returns w a (record w.go { locked = false })))

-- An action between `lock` and a deferred `unlock` that keeps the mutex held and takes the heap
-- from `h` to `h'`, and the handle from `p` to `p'`.
module _ {e : Platform} {A : Type 0} {h h' : Heap} {p p' : Ptr} (body : M e Database A) where
  -- `Q` is what is known of the result.
  pub critical_with :
      (Q : A → Type 0)
      → ((w : World e Database)
          → At h (held p) w
          → Returns (body w) (λ r. Q r.0 × At h' (held p') r.1))
      → (w : World e Database) → At h (idle p) w
      → Returns ((lock >> deferring unlock body) w) (λ r. Q r.0 × At h' (idle p') r.1)
  critical_with Q run w a = Returns-chain _ _ (lock-Returns p w a) (λ r b.
      Returns-chain _ _ (run r.1 b) (λ r' c.
        Returns-chain _ _ (unlock-Returns p' r'.1 c.1) (λ r'' d. Returns-returns _ (c.0, d))))

  pub critical-Returns :
      ((w : World e Database) → At h (held p) w → Returns (body w) (λ r. At h' (held p') r.1))
      → (w : World e Database) → At h (idle p) w
      → Returns ((lock >> deferring unlock body) w) (λ r. At h' (idle p') r.1)
  critical-Returns run w a = Returns-chain _ _ (lock-Returns p w a) (λ r b.
      Returns-chain _ _ (run r.1 b)
        (λ r' c. Returns-chain _ _ (unlock-Returns p' r'.1 c) (λ r'' d. Returns-returns _ d)))

module _ {e : Platform} {h : Heap} where
  exec_locked-Returns :
      (f d : ℕ) (sql : Bytes) (params : List (Param e)) (w : World e Database)
      → Halts e f
      → h d ≡ some database
      → At h (held (some d)) w
      → Returns (exec_locked f sql params w) (λ r. At h (held (some d)) r.1)
  unfolding exec_locked
  exec_locked-Returns f d sql params w halts ld a =
      Returns-chain _ _ (prepare_locked-Returns h d ld sql w a) (λ r b. go r.0 r.1 b)
    where
      go :
          (s : Result Ptr) (w' : World e Database)
          → Prepares h (held (some d)) none s w'
          → Returns
              (checked s (λ stmt. run_statement f stmt params) w')
              (λ r. At h (held (some d)) r.1)
      go (ok none) w' b = absurd b
      go (ok (some p)) w' (new, b) = run_statement-Returns h d ld f p none params w' halts new b
      go (err x) w' b = Returns-returns _ b

  -- Whatever `p` is: on a closed `Database` nothing runs.
  pub exec-At :
      (f : ℕ) (p : Ptr) (sql : Bytes) (params : List (Param e)) (w : World e Database)
      → Halts e f
      → IsOpen h p
      → At h (idle p) w
      → Returns (exec f sql params w) (λ r. At h (idle p) r.1)
  unfolding exec
  exec-At f none sql params w halts o a =
      critical-Returns _ (λ w' b. get_go-chain w' b _ (Returns-returns _ b)) w a
  exec-At f (some d) sql params w halts o a =
      critical-Returns _
        (λ w' b. get_go-chain w' b _ (exec_locked-Returns f d sql params w' halts o b)) w a

  -- `Close`, with the mutex free and a handle that is NULL or live, answers no error, frees the handle
  -- if there is one, sets it to NULL and frees the mutex.
  pub close-At :
      (p : Ptr) (w : World e Database)
      → IsOpen h p
      → At h (idle p) w
      → Returns (close w) (λ r. (r.0 ≡ ok tt) × At (without h p) (idle none) r.1)
  unfolding close
  close-At none w o a =
      critical_with _ (λ x. x ≡ ok tt) (λ w' b. get_go-chain w' b _ (Returns-returns _ (refl, b))) w
        a
  close-At (some d) w o a =
      critical_with _ (λ x. x ≡ ok tt)
        (λ w' b. get_go-chain w' b _ (
          Returns-chain _ _ (zeta_close-Returns w' b d o)
            (λ r c. set_go-chain r.1 c (held none) _ (λ w'' k. Returns-returns _ (refl, k)))))
        w a

-- A `Database` at rest: its mutex is free, its handle is NULL or live, and later names are unused.
pub record IsReady {e : Platform} (w : World e Database) : Type 0 where
  pub unlocked : w.go.locked ≡ false
  pub opened : IsOpen w.heap w.go.handle
  pub fresh : (q : ℕ) → w.next ≤ q → w.heap q ≡ none

module _ {e : Platform} (w : World e Database) (r : IsReady w) where
  pub IsReady-At : At w.heap (idle w.go.handle) w
  IsReady-At = record {
    heap = λ q. refl;
    go = λ i. record { locked = r.unlocked i; handle = w.go.handle };
    fresh = r.fresh;
  }

  -- From a database at rest, open or closed, `Exec` returns whatever the engine answers, if every
  -- statement ends within the fuel; the C objects, the handle and the mutex are then what they were.
  pub exec-restores :
      (f : ℕ) (sql : Bytes) (params : List (Param e))
      → Halts e f
      → Returns (exec f sql params w) (λ r'. At w.heap w.go r'.1)
  exec-restores f sql params halts =
      Returns-mono _ (λ r'. At-go (sym IsReady-At.go))
        (exec-At f w.go.handle sql params w halts r.opened IsReady-At)
