-- ===== src/Sharing/Safety.antt =====
-- Goroutines that share a `Database`: no call goes wrong, one iterator is open at a time, and who
-- waits can go on once it is closed.
use zeta_go.Prelude.{
  ℕ, ◌≡◌, ◌==◌, sym, ◌∙◌, Bool, true, false, Bool-cases, inl, inr, Option, some, arith,
}
use mathlib.Core.Path.{subst}
use zeta_go.Machine.{Platform, World, Outcome, returns}
use zeta_go.Database.{Database}
use zeta_go.Database.Contract.{Halts}
use zeta_go.Database.Exec.{IsReady, IsReady-At}
use zeta_go.Rows.{Rows}
use zeta_go.Rows.Lifecycle.{Counts}
use zeta_go.Sharing.Calls.{Quiet, nothing}
use zeta_go.Sharing.Invariant.{Shares, free, busy}
use zeta_go.Sharing.Turns.{Leads}
use zeta_go.Sharing.Waits.{Turns, turn-Turns, Iterates-locked}
use zeta_go.Sharing.{Worker, Workers, Turn, turn, Reach, start, later, Minds, WithoutTx}

returned :
    {e : Platform} {tidy : Bool} (ks : Workers) (i : ℕ) (o : Outcome (Worker × World e Database))
    (x : Worker × World e Database)
    → Turns tidy ks i o
    → o ≡ returns x
    → Leads tidy ks i x
returned ks i o x (inl (e, _)) q = cc (sym e ∙ q)
returned {tidy = tidy} ks i o x (inr r) q =
    subst (Leads tidy ks i) (ground (arith, sym r.equation ∙ q)) r.holds

open_rows : (o : Option Rows) (r : Rows) → Quiet o → o ≡ some r → r.is_closed ≡ false → ⊥
open_rows o r quiet q shut = cc (subst Quiet q quiet, shut)

one_open-Shares :
    {e : Platform} {tidy : Bool} (ks : Workers) (u : World e Database) (i j : ℕ) (r r' : Rows)
    → Shares tidy ks u
    → (ks i).rows ≡ some r
    → r.is_closed ≡ false
    → (ks j).rows ≡ some r'
    → r'.is_closed ≡ false
    → (i ≡ j) × (u.go.locked ≡ true)
one_open-Shares ks u i j r r' (free h ptr s quiet a) q shut q' shut' =
    absurd (open_rows (ks i).rows r (quiet i) q shut)
one_open-Shares ks u i j r r' (busy h ptr l x s others y z it) q shut q' shut' =
    (sym (at i r q shut) ∙ at j r' q' shut', Iterates-locked x u it z)
  where
    at : (i : ℕ) (r : Rows) → (ks i).rows ≡ some r → r.is_closed ≡ false → l ≡ i
    at i r q shut = elim (Bool-cases (l == i)) [
      | inl same ↦ ground (arith, same)
      | inr apart ↦ absurd (open_rows (ks i).rows r (others i (ground (arith, apart))) q shut)
    ]

module _ {e : Platform} {tidy : Bool} (w : World e Database) (rest : IsReady w) (f : ℕ)
    (halts : Halts e f) (counts : Counts e) (unused : tidy ≡ true → WithoutTx w.heap) where
  -- What goroutines come to from a database at rest.
  Reach-Shares : (ks : Workers) (u : World e Database) → Reach tidy f w ks u → Shares tidy ks u
  Reach-Shares ks u start =
      free w.heap w.go.handle
        (record {
          opened = rest.opened;
          holds = λ i. nothing;
          apart = λ i j p x y. cc;
          settled = λ x y. unused x;
        })
        (λ i. tt) (IsReady-At w rest)
  Reach-Shares ks u (later {ks = before} {u = v} r i t k u' mind q) =
      returned before i (turn f t (before i) v) (k, u')
        (turn-Turns f halts counts before v i t mind (Reach-Shares before v r)) q

module _ {e : Platform} (w : World e Database) (rest : IsReady w) (f : ℕ) (halts : Halts e f)
    (counts : Counts e) where
  -- Goroutines share a database that was at rest while no transaction was live. They call its operations,
  -- those of their own iterators and of their own transactions in any order and without end, but
  -- close the database only when no transaction is live. If every statement ends within the fuel and
  -- the engine counts no negative number of columns, each next call either waits for the mutex, and
  -- then some goroutine has an open iterator, or it returns. No C function is called outside its
  -- contract, no mutex is unlocked that is free, and after the call the handle is again NULL or
  -- live, no transaction is live while it is NULL, every goroutine's last transaction is live or
  -- has ended, no two have the same, and at most one iterator is open, with the mutex and its
  -- statement.
  pub reached-Turns :
      (ks : Workers) (u : World e Database) (i : ℕ) (t : Turn e)
      → WithoutTx w.heap
      → Reach true f w ks u
      → Minds true t u
      → Turns true ks i (turn f t (ks i) u)
  reached-Turns ks u i t unused r mind =
      turn-Turns f halts counts ks u i t mind
        (Reach-Shares w rest f halts counts (λ _. unused) ks u r)

  untidy : (ks : Workers) (u : World e Database) → Reach false f w ks u → Shares false ks u
  untidy ks u r = Reach-Shares w rest f halts counts (λ q. cc) ks u r

  -- In every state that the goroutines come to, even if they close the database at any time, at most one
  -- of them has an open iterator, and while it is open the mutex is held, if every statement ends
  -- within the fuel and the engine counts no negative number of columns.
  pub one_open_iterator :
      (ks : Workers) (u : World e Database) (i j : ℕ) (r r' : Rows)
      → Reach false f w ks u
      → (ks i).rows ≡ some r
      → r.is_closed ≡ false
      → (ks j).rows ≡ some r'
      → r'.is_closed ≡ false
      → (i ≡ j) × (u.go.locked ≡ true)
  one_open_iterator ks u i j r r' reach = one_open-Shares ks u i j r r' (untidy ks u reach)
