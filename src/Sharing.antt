-- ===== src/Sharing.antt =====
-- A `Database` that goroutines share (the comments on it in embedded/zeta.go): their calls, in any
-- order. A call is one step, since it takes the mutex before it looks at anything that goroutines
-- share, and it gives the mutex back at its end or leaves it with the iterator that it returns.
pub mod Calls
pub mod Invariant
pub mod Turns
pub mod Waits
pub mod Safety
use zeta_go.Prelude.{ℕ, ◌==◌, ◌≡◌, ◌≢◌, Bool, true, false, Option, none, some, List, if◌then◌else◌}
use zeta_go.Prelude.Int.{ℤ}
use zeta_go.Machine.{Bytes, Platform, World, Heap, transaction, returns, M, pure, ◌>>=◌, ◌>>◌}
use zeta_go.Errors.{Result, ok, err}
use zeta_go.Params.{Param}
use zeta_go.Database.{Database, exec, close}
use zeta_go.Rows.{Rows, query}
use zeta_go.Rows.Lifecycle.{Call, call}
use zeta_go.Tx.{Tx, begin_with_isolation, commit, rollback}
use zeta_go.Schema.{list_tables, table_info}

-- What a goroutine has in hand: the iterator of its last query and its last transaction. It shares
-- neither with another.
pub record Worker : Type 0 where
  pub rows : Option Rows
  pub tx : Option Tx

-- The calls of a goroutine.
pub data Turn (e : Platform) : Type 0 where
  executes queries tx_executes tx_queries : Bytes → List (Param e) → Turn e
  -- a call on its iterator
  reads : Call → Turn e
  begins : ℤ → Turn e
  commits rollbacks closes lists : Turn e
  describes : Bytes → Turn e

abbrev pub keep_rows : Worker → Result Rows → Worker
keep_rows k (ok r) = record k { rows = some r }
keep_rows k (err x) = k

abbrev pub keep_tx : Worker → Result Tx → Worker
keep_tx k (ok t) = record k { tx = some t }
keep_tx k (err x) = k

module _ {e : Platform} where
  unfoldable pub on_rows : Call → Worker → Option Rows → M e Database Worker
  on_rows c k none = pure k
  on_rows c k (some r) = do r' ← call c r; pure (record k { rows = some r' })

  abbrev pub in_tx : (Tx → M e Database Worker) → Worker → Option Tx → M e Database Worker
  in_tx m k none = pure k
  in_tx m k (some t) = m t

  -- One call of the goroutine `k`, and what it then has in hand.
  unfoldable pub turn : ℕ → Turn e → Worker → M e Database Worker
  unfolding on_rows
  turn f (executes sql ps) k = do exec f sql ps; pure k
  turn f (queries sql ps) k = do r ← query sql ps; pure (keep_rows k r)
  turn f (tx_executes sql ps) k = in_tx (λ t. zeta_go.Tx.exec f t sql ps >> pure k) k k.tx
  turn f (tx_queries sql ps) k =
      in_tx (λ t. zeta_go.Tx.query t sql ps >>= λ r. pure (keep_rows k r)) k k.tx
  turn f (reads c) k = on_rows c k k.rows
  turn f (begins level) k = do r ← begin_with_isolation level; pure (keep_tx k r)
  turn f commits k = in_tx (λ t. commit t >>= λ r. pure (record k { tx = some r.1 })) k k.tx
  turn f rollbacks k = in_tx (λ t. rollback t >>= λ r. pure (record k { tx = some r.1 })) k k.tx
  turn f closes k = do close; pure k
  turn f lists k = do list_tables; pure k
  turn f (describes name) k = do table_info name; pure k

-- The goroutines by number.
abbrev pub Workers : Type 0
Workers = ℕ → Worker

abbrev pub update : Workers → ℕ → Worker → Workers
update ks i k j = if i == j then k else ks j

-- Nobody has anything in hand.
abbrev pub at_start : Workers
at_start i = record { rows = none; tx = none }

-- No transaction is live.
abbrev pub WithoutTx : Heap → Type 0
WithoutTx h = (q : ℕ) → h q ≢ some transaction

abbrev pub is_close : {e : Platform} → Turn e → Bool
is_close closes = true
is_close _ = false

-- What the comment on `Tx` asks, if `tidy`: the database is closed only when no transaction is live.
abbrev pub Minds : {e : Platform} → Bool → Turn e → World e Database → Type 0
Minds tidy t w = tidy ≡ true → is_close t ≡ true → WithoutTx w.heap

-- The states that goroutines come to from `w`, each step the whole call of one that does not wait; if
-- they are `tidy`, they close the database only when no transaction is live.
pub data Reach {e : Platform} (tidy : Bool) (f : ℕ) (w : World e Database)
    : Workers → World e Database → Type 0 where
  start : Reach tidy f w at_start w
  later :
      {ks : Workers} {u : World e Database}
      → Reach tidy f w ks u
      → (i : ℕ) (t : Turn e) (k : Worker) (u' : World e Database) → Minds tidy t u
      → turn f t (ks i) u ≡ returns (k, u')
      → Reach tidy f w (update ks i k) u'
