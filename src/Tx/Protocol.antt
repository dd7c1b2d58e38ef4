-- ===== src/Tx/Protocol.antt =====
-- What a transaction promises, and that the code keeps it.
use zeta_go.Prelude.{ℕ, ◌≡◌, refl, sym, true, false, Option, none, some, List, [], ◌∷◌}
use mathlib.Core.Path.{subst}
use zeta_go.Machine.{Bytes, Ptr, Platform, World, M, pure, ◌>>=◌, Heap, database}
use zeta_go.Machine.Rules.{Returns, Returns-returns, Returns-chain, Returns-after}
use zeta_go.Machine.Heaps.{At}
use zeta_go.Errors.{GoError, tx_done, Result, ok, err}
use zeta_go.Params.{Param}
use zeta_go.Database.{Database}
use zeta_go.Database.Contract.{IsOpen, Halts, idle}
use zeta_go.Rows.{Rows}
use zeta_go.Rows.Lifecycle.{Call, Counts, use_rows}
use zeta_go.Tx.{Tx, exec, query, commit, rollback}
use zeta_go.Tx.Lifecycle.{
  Transacts, active, over, exec-Transacts, query-Transacts, exec-over, query-over,
}
use zeta_go.Tx.Ending.{commit-over, rollback-over, commit-Ended, rollback-Ended}
use zeta_go.Tx.Sessions.{TxCall, execs, queries, commits, rollbacks}

-- The abstract transaction: it runs until its first `Commit` or `Rollback`.
pub data Phase : Type 0 where
  running ended : Phase

-- The error that a call answers, if any, and the phase after it. While the transaction runs, any
-- answer is allowed; once it has ended, the answer is settled.
pub data Allows (e : Platform) : Phase → TxCall e → Option GoError → Phase → Type 0 where
  runs_exec : (sql : _) (ps : _) (x : Option GoError) → Allows e running (execs sql ps) x running
  runs_query :
      (sql : _) (ps : _) (cs : _) (x : Option GoError)
      → Allows e running (queries sql ps cs) x running
  ends_commit : (x : Option GoError) → Allows e running commits x ended
  ends_rollback : (x : Option GoError) → Allows e running rollbacks x ended
  refuses_exec : (sql : _) (ps : _) → Allows e ended (execs sql ps) (some tx_done) ended
  refuses_query :
      (sql : _) (ps : _) (cs : _) → Allows e ended (queries sql ps cs) (some tx_done) ended
  refuses_commit : Allows e ended commits (some tx_done) ended
  ignores_rollback : Allows e ended rollbacks none ended

-- The answers to a sequence of calls.
pub data Traces (e : Platform)
    : Phase → List (TxCall e) → List (Option GoError) → Phase → Type 0 where
  over_and_out : (p : Phase) → Traces e p [] [] p
  answers :
      (p q r : Phase) (c : TxCall e) (cs : List (TxCall e)) (x : Option GoError)
      (xs : List (Option GoError))
      → Allows e p c x q
      → Traces e q cs xs r
      → Traces e p (c ∷ cs) (x ∷ xs) r

abbrev error_of : {A : Type 0} → Result A → Option GoError
error_of (ok a) = none
error_of (err x) = some x

module _ {e : Platform} where
  -- A call on the transaction, and what it answers.
  unfoldable pub answer : ℕ → TxCall e → Tx → M e Database (Option GoError × Tx)
  answer f (execs sql ps) t = do r ← exec f t sql ps; pure (error_of r, t)
  answer f (queries sql ps cs) t = do r ← query t sql ps; u ← use_rows cs r; pure (error_of r, t)
  answer f commits t = do r ← commit t; pure (error_of r.0, r.1)
  answer f rollbacks t = do r ← rollback t; pure (error_of r.0, r.1)

  unfoldable pub answers_to : ℕ → List (TxCall e) → Tx → M e Database (List (Option GoError) × Tx)
  unfolding answer
  answers_to f [] t w = pure ([], t) w
  answers_to f (c ∷ cs) t w =
      (do a ← answer f c t; as' ← answers_to f cs a.1; pure (a.0 ∷ as'.0, as'.1)) w

-- A transaction of the code in a phase of the abstract one.
abbrev pub InPhase : {e : Platform} → Heap → Ptr → Phase → Tx → World e Database → Type 0
InPhase h ptr running t w = (t.done ≡ false) × Transacts h ptr t w
InPhase h ptr ended t w = (t.done ≡ true) × Transacts h ptr t w

-- What a call in a phase leads to.
abbrev Answers :
    {e : Platform} → Heap → Ptr → Phase → TxCall e → Option GoError × Tx → World e Database → Type 0
Answers {e} h ptr p c (x, t) w = (q : Phase) × Allows e p c x q × InPhase h ptr q t w

module _ {e : Platform} {h : Heap} (f : ℕ) (ptr : Ptr) (halts : Halts e f) (counts : Counts e)
    (o : IsOpen h ptr) where
  -- While the transaction runs.
  running-Answers :
      (c : TxCall e) (t : Tx) (w : World e Database)
      → t.done ≡ false
      → Transacts h ptr t w
      → Returns (answer f c t w) (λ r. Answers h ptr running c r.0 r.1)
  unfolding answer
  running-Answers (execs sql ps) t w going i =
      Returns-chain _ _ (exec-Transacts f ptr t sql ps w halts o i)
        (λ r k. Returns-returns _ (running, runs_exec sql ps (error_of r.0), (going, k)))
  running-Answers (queries sql ps cs) t w going i =
      Returns-after (query t sql ps w) (λ r. use_rows cs r.0 r.1) _
        (query-Transacts counts ptr t sql ps cs w o i)
        (λ r u k. Returns-returns _ (running, runs_query sql ps cs (error_of r.0), (going, k)))
  running-Answers commits t w going i =
      Returns-chain _ _ (commit-Ended ptr t w i)
        (λ r k. Returns-returns _ (ended, ends_commit (error_of r.0.0), (k.0, k.2)))
  running-Answers rollbacks t w going i =
      Returns-chain _ _ (rollback-Ended ptr t w i)
        (λ r k. Returns-returns _ (ended, ends_rollback (error_of r.0.0), (k.0, k.2)))

  module _ (s : Ptr) (w : World e Database) (a : At h (idle ptr) w) where
    refused_rows :
        (cs : List Call) (x : Result Rows) (w' : World e Database) (sql : Bytes)
        (ps : List (Param e))
        → x ≡ err tx_done
        → At h (idle ptr) w'
        → Returns
            ((use_rows cs x >>= λ u. pure (error_of x, record { handle = s; done = true })) w')
            (λ r. Answers h ptr ended (queries sql ps cs) r.0 r.1)
    unfolding use_rows
    refused_rows cs (ok r) w' sql ps q b = cc
    refused_rows cs (err y) w' sql ps q b = Returns-returns _ (
      ended,
      subst (λ z. Allows e ended (queries sql ps cs) (error_of z) ended) (sym q)
          (refuses_query sql ps cs),
      (refl, over s w' b),
    )

    -- Once it has ended.
    ended-Answers :
        (c : TxCall e)
        → Returns
            (answer f c (record { handle = s; done = true }) w)
            (λ r. Answers h ptr ended c r.0 r.1)
    unfolding answer
    ended-Answers (execs sql ps) = Returns-chain _ _ (exec-over ptr s w a f sql ps) (λ r b.
        Returns-returns _ (
          ended,
          subst (λ z. Allows e ended (execs sql ps) (error_of z) ended) (sym b.0)
              (refuses_exec sql ps),
          (refl, over s r.1 b.1),
        ))
    ended-Answers (queries sql ps cs) =
        Returns-chain _ _ (query-over ptr s w a sql ps)
          (λ r b. refused_rows cs r.0 r.1 sql ps b.0 b.1)
    ended-Answers commits = Returns-chain _ _ (commit-over ptr s w a) (λ r b. Returns-returns _ (
        subst (λ z. Answers h ptr ended commits (error_of z.0, z.1) r.1) (sym b.0)
          (ended, refuses_commit, (refl, over s r.1 b.1))))
    ended-Answers rollbacks = Returns-chain _ _ (rollback-over ptr s w a) (λ r b.
        Returns-returns _ (
          subst (λ z. Answers h ptr ended rollbacks (error_of z.0, z.1) r.1) (sym b.0)
            (ended, ignores_rollback, (refl, over s r.1 b.1))))

  answer-Answers :
      (p : Phase) (c : TxCall e) (t : Tx) (w : World e Database)
      → InPhase h ptr p t w
      → Returns (answer f c t w) (λ r. Answers h ptr p c r.0 r.1)
  answer-Answers running c t w (going, i) = running-Answers c t w going i
  answer-Answers ended c t w (over_now, over s _ a) = ended-Answers s w a c
  answer-Answers ended c t w (over_now, active p _ new a) = cc

  answers_to-Answers :
      (p : Phase) (cs : List (TxCall e)) (t : Tx) (w : World e Database)
      → InPhase h ptr p t w
      → Returns
          (answers_to f cs t w)
          (λ r. (q : Phase) × Traces e p cs r.0.0 q × InPhase h ptr q r.0.1 r.1)
  unfolding answers_to
  answers_to-Answers p [] t w i = Returns-returns _ (p, over_and_out p, i)
  answers_to-Answers p (c ∷ cs) t w i =
      Returns-chain _ _ (answer-Answers p c t w i) (λ a (q, allowed, k).
        Returns-chain _ _ (answers_to-Answers q cs a.0.1 a.1 k) (λ b (r, traced, m).
          Returns-returns _ (r, answers p q r c cs a.0.0 b.0.0 allowed traced, m)))

-- A transaction that runs is one of an open database; one that has ended may outlive it.
abbrev pub Outlives : Heap → Ptr → Phase → Type 0
Outlives h none running = ⊥
Outlives h none ended = Unit {0}
Outlives h (some d) p = h d ≡ some database

module _ {e : Platform} {h : Heap} (f : ℕ) (ptr : Ptr) (halts : Halts e f) (counts : Counts e) where
  -- A transaction of the code refines the abstract one: for any calls in any order, from a phase that the
  -- transaction is in, on an open database, or on a closed one if the transaction had ended before,
  -- the calls return answers that the abstract transaction gives, and the transaction is then in the
  -- phase that they lead to, if every statement ends within the fuel and the engine counts no
  -- negative number of columns. So after the first `Commit` or `Rollback` each `Exec`, `Query` and
  -- `Commit` answers ErrTxDone, and each `Rollback` no error.
  pub answers_to-Traces :
      (p : Phase) (cs : List (TxCall e)) (t : Tx) (w : World e Database)
      → Outlives h ptr p
      → InPhase h ptr p t w
      → Returns
          (answers_to f cs t w)
          (λ r. (q : Phase) × Traces e p cs r.0.0 q × InPhase h ptr q r.0.1 r.1)
  answers_to-Traces p cs t w o i =
      answers_to-Answers f ptr halts counts (open_in ptr p o) p cs t w i
    where
      open_in : (ptr : Ptr) (p : Phase) → Outlives h ptr p → IsOpen h ptr
      open_in none running o = absurd o
      open_in none ended o = tt
      open_in (some d) p o = o
