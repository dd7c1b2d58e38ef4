-- ===== src/Sharing/Turns.antt =====
-- The turn of a goroutine while the mutex is free: it returns, and the goroutines still share.
use zeta_go.Prelude.{ℕ, ◌≡◌, ◌≢◌, refl, ◌∙◌, Bool, Option, none, some}
use zeta_go.Prelude.Int.{ℤ}
use zeta_go.Machine.{Ptr, Platform, World, Heap, M}
use zeta_go.Machine.Rules.{Returns, Returns-returns, Returns-chain}
use zeta_go.Machine.Heaps.{At}
use zeta_go.Errors.{Result, ok, err}
use zeta_go.Database.{Database}
use zeta_go.Database.Contract.{Halts, idle}
use zeta_go.Database.Exec.{exec-At, close-At}
use zeta_go.Rows.{Rows}
use zeta_go.Rows.Lifecycle.{Call, Counts, Queries, query-Queries}
use zeta_go.Tx.{Tx}
use zeta_go.Tx.Lifecycle.{active, over}
use zeta_go.Tx.Ending.{Ended}
use zeta_go.Tx.Sessions.{Begins, begin-Begins, begin-closed}
use zeta_go.Schema.Lifecycle.{list_tables-At, table_info-At}
use zeta_go.Sharing.Calls.{
  Holds, Quiet, call-Quiet, without_tx, tx_exec-At, tx_query-Queries, commit-Holds, rollback-Holds,
}
use zeta_go.Sharing.Invariant.{
  Sound, Sound-same, Sound-begun, Sound-done, Sound-ended, Sound-closed, Shares, free_after,
  rows_after,
}
use zeta_go.Sharing.{
  Worker, Workers, update, Turn, executes, queries, tx_executes, tx_queries, reads, begins, commits,
  rollbacks, closes, lists, describes, keep_rows, keep_tx, in_tx, on_rows, turn, Minds,
}

-- What a turn of goroutine `i` leads to.
abbrev pub Leads : {e : Platform} → Bool → Workers → ℕ → Worker × World e Database → Type 0
Leads tidy ks i (k, w) = Shares tidy (update ks i k) w

module _ {e : Platform} {tidy : Bool} {h : Heap} (ptr : Ptr) (ks : Workers) (i : ℕ)
    (s : Sound tidy h ptr ks) (quiet : (j : ℕ) → Quiet (ks j).rows) where
  -- Nothing has changed for the other goroutines.
  same-Leads : (w : World e Database) → At h (idle ptr) w → Leads tidy ks i (ks i, w)
  same-Leads w a =
      free_after ks i (ks i) (Sound-same s i (ks i) refl) w (quiet i) (λ j n. quiet j) a

  queried-Leads :
      (r : Result Rows) (w : World e Database)
      → Queries h ptr r w
      → Leads tidy ks i (keep_rows (ks i) r, w)
  queried-Leads (ok r) w q =
      rows_after ks i (record (ks i) { rows = some r }) (Sound-same s i _ refl) w r refl
        (λ j n. quiet j) q
  queried-Leads (err x) w a = same-Leads w a

  begun-Leads :
      (r : Result Tx) (w : World e Database)
      → ptr ≢ none
      → Begins h ptr r w
      → Leads tidy ks i (keep_tx (ks i) r, w)
  begun-Leads (ok t) w o (active p _ new a) =
      free_after ks i (record (ks i) { tx = some t }) (Sound-begun s i _ p new o refl) w (quiet i)
        (λ j n. quiet j) a
  begun-Leads (ok t) w o (over x _ a) =
      free_after ks i (record (ks i) { tx = some t }) (Sound-done s i _ t refl refl) w (quiet i)
        (λ j n. quiet j) a
  begun-Leads (err x) w o a = same-Leads w a

  ended-Leads :
      (t t' : Tx) (w : World e Database)
      → (ks i).tx ≡ some t
      → Ended (without_tx h t) ptr t' w
      → Leads tidy ks i (record (ks i) { tx = some t' }, w)
  ended-Leads t t' w q (past, a, _) =
      free_after ks i (record (ks i) { tx = some t' }) (Sound-ended s i _ t t' q refl past) w
        (quiet i) (λ j n. quiet j) a

  reads-Leads :
      (c : Call) (r : Option Rows) (w : World e Database)
      → Quiet r
      → (ks i).rows ≡ r
      → At h (idle ptr) w
      → Returns (on_rows c (ks i) r w) (Leads tidy ks i)
  unfolding on_rows
  reads-Leads c none w q x a = Returns-returns _ (same-Leads w a)
  reads-Leads c (some r) w q x a = rw (call-Quiet c r w q) (
      Returns-returns _ (
        free_after ks i (record (ks i) { rows = some r }) (Sound-same s i _ refl) w q
          (λ j n. quiet j) a))

  -- A turn in the transaction in hand, if there is one.
  in_tx-Leads :
      (m : Tx → M e Database Worker) (o : Option Tx) (w : World e Database)
      → (ks i).tx ≡ o
      → Holds h o
      → At h (idle ptr) w
      → ((t : Tx) → (ks i).tx ≡ some t → Holds h (some t) → Returns (m t w) (Leads tidy ks i))
      → Returns (in_tx m (ks i) o w) (Leads tidy ks i)
  in_tx-Leads m none w q held a f = Returns-returns _ (same-Leads w a)
  in_tx-Leads m (some t) w q held a f = f t q held

module _ {e : Platform} {tidy : Bool} {h : Heap} (f : ℕ) where
  -- On a closed database no transaction begins.
  begin-Leads :
      (ptr : Ptr) (ks : Workers) (i : ℕ) (s : Sound tidy h ptr ks)
      (quiet : (j : ℕ) → Quiet (ks j).rows) (w : World e Database) (a : At h (idle ptr) w)
      (level : ℤ)
      → Returns (turn f (begins level) (ks i) w) (Leads tidy ks i)
  unfolding turn
  begin-Leads none ks i s quiet w a level =
      Returns-chain _ _ (begin-closed level w a)
        (λ r (q, b). rw q (Returns-returns _ (same-Leads none ks i s quiet r.1 b)))
  begin-Leads (some d) ks i s quiet w a level =
      Returns-chain _ _ (begin-Begins (some d) level w s.opened a)
        (λ r b. Returns-returns _ (begun-Leads (some d) ks i s quiet r.0 r.1 (λ q. cc) b))

module _ {e : Platform} {tidy : Bool} {h : Heap} (f : ℕ) (halts : Halts e f) (counts : Counts e)
    (ptr : Ptr) (ks : Workers) (i : ℕ) (s : Sound tidy h ptr ks)
    (quiet : (j : ℕ) → Quiet (ks j).rows) (w : World e Database) (a : At h (idle ptr) w) where
  pub turn-Leads : (t : Turn e) → Minds tidy t w → Returns (turn f t (ks i) w) (Leads tidy ks i)
  unfolding turn
  turn-Leads (executes sql ps) mind =
      Returns-chain _ _ (exec-At f ptr sql ps w halts s.opened a)
        (λ r b. Returns-returns _ (same-Leads ptr ks i s quiet r.1 b))
  turn-Leads (queries sql ps) mind =
      Returns-chain _ _ (query-Queries ptr sql ps w s.opened a)
        (λ r b. Returns-returns _ (queried-Leads ptr ks i s quiet r.0 r.1 b))
  turn-Leads (tx_executes sql ps) mind =
      in_tx-Leads ptr ks i s quiet _ (ks i).tx w refl (s.holds i) a (λ t q held.
        Returns-chain _ _ (tx_exec-At f ptr t sql ps w halts s.opened held a)
          (λ r b. Returns-returns _ (same-Leads ptr ks i s quiet r.1 b)))
  turn-Leads (tx_queries sql ps) mind =
      in_tx-Leads ptr ks i s quiet _ (ks i).tx w refl (s.holds i) a (λ t q held.
        Returns-chain _ _ (tx_query-Queries ptr t sql ps w s.opened held a)
          (λ r b. Returns-returns _ (queried-Leads ptr ks i s quiet r.0 r.1 b)))
  turn-Leads (reads c) mind = reads-Leads ptr ks i s quiet c (ks i).rows w (quiet i) refl a
  turn-Leads (begins level) mind = begin-Leads f ptr ks i s quiet w a level
  turn-Leads commits mind =
      in_tx-Leads ptr ks i s quiet _ (ks i).tx w refl (s.holds i) a (λ t q held.
        Returns-chain _ _ (commit-Holds ptr t w held a)
          (λ r b. Returns-returns _ (ended-Leads ptr ks i s quiet t r.0.1 r.1 q b)))
  turn-Leads rollbacks mind =
      in_tx-Leads ptr ks i s quiet _ (ks i).tx w refl (s.holds i) a (λ t q held.
        Returns-chain _ _ (rollback-Holds ptr t w held a)
          (λ r b. Returns-returns _ (ended-Leads ptr ks i s quiet t r.0.1 r.1 q b)))
  turn-Leads closes mind = Returns-chain _ _ (close-At ptr w s.opened a) (λ r b. Returns-returns _ (
      free_after ks i (ks i)
        (Sound-closed s i (ks i) (λ x q lp. mind x refl q (a.heap q ∙ lp)) refl) r.1 (quiet i)
        (λ j n. quiet j) b.1))
  turn-Leads lists mind =
      Returns-chain _ _ (list_tables-At ptr w s.opened a)
        (λ r b. Returns-returns _ (same-Leads ptr ks i s quiet r.1 b))
  turn-Leads (describes name) mind =
      Returns-chain _ _ (table_info-At name ptr w s.opened a)
        (λ r b. Returns-returns _ (same-Leads ptr ks i s quiet r.1 b))
