-- ===== src/Tx/Sessions.antt =====
-- Whole transactions: `Begin`, any calls, and the deferred `Rollback`.
use zeta_go.Prelude.{ℕ, ◌≡◌, refl, sym, false, none, some, List, [], ◌∷◌}
use mathlib.Core.Path.{subst}
use zeta_go.Prelude.Int.{ℤ, wrap}
use zeta_go.Machine.{Bytes, Ptr, Platform, World, M, pure, ◌>>=◌, ◌>>◌, Heap, put, transaction}
use zeta_go.Machine.Rules.{Returns, Returns-returns, Returns-chain, Returns-mono}
use zeta_go.Machine.Heaps.{At, At-go, get_go-chain}
use zeta_go.Capi.Rules.{zeta_begin_isolation-Returns}
use zeta_go.Errors.{closed, Result, ok, err}
use zeta_go.Params.{Param}
use zeta_go.Database.{Database, unlock}
use zeta_go.Database.Contract.{IsOpen, Halts, Creates, held, idle, prepared-Returns}
use zeta_go.Database.Exec.{IsReady, IsReady-At, lock-Returns, unlock-Returns}
use zeta_go.Rows.Lifecycle.{Call, use_rows, Counts}
use zeta_go.Tx.Lifecycle.{Transacts, active, exec-Transacts, query-Transacts}
use zeta_go.Tx.Ending.{commit-Ended, rollback-Ended}
use zeta_go.Tx.{Tx, begun, begin_with_isolation, exec, query, commit, rollback}

-- What `Begin` answers.
abbrev pub Begins : {e : Platform} → Heap → Ptr → Result Tx → World e Database → Type 0
Begins h ptr (ok t) w = Transacts h ptr t w
Begins h ptr (err x) w = At h (idle ptr) w

-- The same with the mutex still held.
abbrev Begun : {e : Platform} → Heap → Ptr → Result Tx → World e Database → Type 0
Begun h ptr (ok t) w =
    (p : ℕ) × (t ≡ record { handle = some p; done = false })
    × (h p ≡ none)
    × At (put h p (some transaction)) (held ptr) w
Begun h ptr (err x) w = At h (held ptr) w

-- The calls on a transaction.
pub data TxCall (e : Platform) : Type 0 where
  execs : Bytes → List (Param e) → TxCall e
  -- `Query`, with the calls on its rows before they are closed
  queries : Bytes → List (Param e) → List Call → TxCall e
  commits rollbacks : TxCall e

module _ {e : Platform} where
  unfoldable pub tx_call : ℕ → TxCall e → Tx → M e Database Tx
  tx_call f (execs sql params) t = do exec f t sql params; pure t
  tx_call f (queries sql params cs) t = (query t sql params >>= use_rows cs) >> pure t
  tx_call f commits t = do r ← commit t; pure r.1
  tx_call f rollbacks t = do r ← rollback t; pure r.1

  unfoldable pub tx_calls : ℕ → List (TxCall e) → Tx → M e Database Tx
  tx_calls f [] t w = pure t w
  tx_calls f (c ∷ cs) t w = (tx_call f c t >>= tx_calls f cs) w

  -- `defer tx.Rollback()` around calls, after a `Begin` that may have failed.
  unfoldable pub use_tx : ℕ → List (TxCall e) → Result Tx → M e Database (Unit {0})
  use_tx f cs (ok t) = do t' ← tx_calls f cs t; rollback t'; pure tt
  use_tx f cs (err x) = pure tt

module _ {e : Platform} (h : Heap) where
  unlock-Begins :
      (ptr : Ptr) (r : Result Tx) (w : World e Database)
      → Begun h ptr r w
      → Returns (unlock w) (λ r'. Begins h ptr r r'.1)
  unlock-Begins ptr (ok t) w (p, q, new, a) =
      Returns-mono _ (λ r b. subst (λ t. Transacts h ptr t r.1) (sym q) (active p r.1 new b))
        (unlock-Returns ptr w a)
  unlock-Begins ptr (err x) w a = unlock-Returns ptr w a

module _ {e : Platform} {h : Heap} where
  begun-Begins :
      (ptr : Ptr) (s : Result Ptr) (w : World e Database)
      → Creates h (held ptr) transaction s w
      → Returns (begun s w) (λ r. Begun h ptr r.0 r.1)
  unfolding begun
  begun-Begins ptr (ok none) w c = absurd c
  begun-Begins ptr (ok (some p)) w (new, a) = Returns-returns _ (p, refl, new, a)
  begun-Begins ptr (err x) w a = Returns-returns _ a

  -- `Begin` answers an active transaction or an error, and frees the mutex.
  pub begin-Begins :
      (ptr : Ptr) (level : ℤ) (w : World e Database)
      → IsOpen h ptr
      → At h (idle ptr) w
      → Returns (begin_with_isolation level w) (λ r. Begins h ptr r.0 r.1)
  unfolding begin_with_isolation
  begin-Begins none level w o a = Returns-chain _ _ (lock-Returns none w a) (λ r b.
      Returns-chain _ _
        (get_go-chain r.1 b {P = λ r'. Begun h none r'.0 r'.1} _ (Returns-returns _ b))
        (λ r' c. Returns-chain _ _ (unlock-Begins h none r'.0 r'.1 c) (λ s k. Returns-returns _ k)))
  begin-Begins (some d) level w o a = Returns-chain _ _ (lock-Returns (some d) w a) (λ r b.
      Returns-chain _ _
        (get_go-chain r.1 b _ (
          Returns-chain _ _ (zeta_begin_isolation-Returns r.1 b d o (wrap 32 level)) (λ r' c.
            Returns-chain _ _ (prepared-Returns d o transaction r'.0 r'.1 c)
              (λ s k. begun-Begins (some d) s.0 s.1 k))))
        (λ r' c.
          Returns-chain _ _ (unlock-Begins h (some d) r'.0 r'.1 c) (λ s k. Returns-returns _ k)))

  -- On a closed database, it answers ErrClosed.
  pub begin-closed :
      (level : ℤ) (w : World e Database)
      → At h (idle none) w
      → Returns (begin_with_isolation level w) (λ r. (r.0 ≡ err closed) × At h (idle none) r.1)
  unfolding begin_with_isolation
  begin-closed level w a = Returns-chain _ _ (lock-Returns none w a) (λ r b.
      Returns-chain _ _
        (get_go-chain r.1 b {P = λ r'. (r'.0 ≡ err closed) × At h (held none) r'.1} _
          (Returns-returns _ (refl, b)))
        (λ r' (q, c).
          Returns-chain _ _ (unlock-Returns none r'.1 c) (λ s k. Returns-returns _ (q, k))))

module _ {e : Platform} {h : Heap} (f : ℕ) (ptr : Ptr) (halts : Halts e f) (counts : Counts e)
    (o : IsOpen h ptr) where
  tx_call-Transacts :
      (c : TxCall e) (t : Tx) (w : World e Database)
      → Transacts h ptr t w
      → Returns (tx_call f c t w) (λ r. Transacts h ptr r.0 r.1)
  unfolding tx_call
  tx_call-Transacts (execs sql params) t w i =
      Returns-chain _ _ (exec-Transacts f ptr t sql params w halts o i) (λ r b. Returns-returns _ b)
  tx_call-Transacts (queries sql params cs) t w i =
      Returns-chain _ _ (query-Transacts counts ptr t sql params cs w o i)
        (λ r b. Returns-returns _ b)
  tx_call-Transacts commits t w i =
      Returns-chain _ _ (commit-Ended ptr t w i) (λ r b. Returns-returns _ b.2)
  tx_call-Transacts rollbacks t w i =
      Returns-chain _ _ (rollback-Ended ptr t w i) (λ r b. Returns-returns _ b.2)

  tx_calls-Transacts :
      (cs : List (TxCall e)) (t : Tx) (w : World e Database)
      → Transacts h ptr t w
      → Returns (tx_calls f cs t w) (λ r. Transacts h ptr r.0 r.1)
  unfolding tx_calls
  tx_calls-Transacts [] t w i = Returns-returns _ i
  tx_calls-Transacts (c ∷ cs) t w i =
      Returns-chain _ _ (tx_call-Transacts c t w i) (λ r b. tx_calls-Transacts cs r.0 r.1 b)

module _ {e : Platform} (w : World e Database) (r : IsReady w) (f : ℕ) (halts : Halts e f)
    (counts : Counts e) where
  -- From a database at rest, `Begin`, then any calls of `Exec`, `Query`, `Commit` and `Rollback` in any
  -- order, then the deferred `Rollback`: if every statement ends within the fuel and the engine counts
  -- no negative number of columns, all of them return, no C function is called outside its
  -- contract, and in the end the C objects, the handle and the mutex are what they were.
  pub transaction-restores :
      (level : ℤ) (cs : List (TxCall e))
      → Returns ((begin_with_isolation level >>= use_tx f cs) w) (λ r'. At w.heap w.go r'.1)
  unfolding use_tx
  transaction-restores level cs =
      Returns-chain _ _ (begin-Begins w.go.handle level w r.opened (IsReady-At w r))
        (λ s a. used s.0 s.1 a)
    where
      used :
          (s : Result Tx) (w' : World e Database)
          → Begins w.heap w.go.handle s w'
          → Returns (use_tx f cs s w') (λ r'. At w.heap w.go r'.1)
      used (ok t) w' i =
          Returns-chain _ _ (tx_calls-Transacts f w.go.handle halts counts r.opened cs t w' i)
            (λ s a.
              Returns-chain _ _ (rollback-Ended w.go.handle s.0 s.1 a)
                (λ s' b. Returns-returns _ (At-go (sym (IsReady-At w r).go) b.1)))
      used (err x) w' a = Returns-returns _ (At-go (sym (IsReady-At w r).go) a)
