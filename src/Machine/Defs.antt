-- ===== src/Machine/Defs.antt =====
-- What the Go code runs on. The engine behind embedded/include/zeta.h is a parameter, the record
-- `Platform`; the objects that its C functions hand out live on a heap of the model, so that a
-- use after free, a double free or a leak can be told; an action is a state transformer that may
-- also be undefined (a C function called outside its contract), block or run out of fuel.
use zeta_go.Prelude.{ℕ, suc, Bool, Option, none, some, List, ◌==◌, if◌then◌else◌}
use zeta_go.Prelude.Int.{ℤ}

abbrev pub Bytes : Type 0
Bytes = List ℕ

-- A C pointer: `none` is NULL. An object is named by its place in the order of allocation.
abbrev pub Ptr : Type 0
Ptr = Option ℕ

-- `zeta_open`, `zeta_open_mode` and `zeta_open_memory`.
pub data OpenCall : Type 0 where
  at_path : Bytes → OpenCall
  at_path_mode : Bytes → ℤ → OpenCall
  in_memory : OpenCall

-- A function that returns a new handle: NULL and perhaps a message on failure.
pub data Creation : Type 0 where
  created : Creation
  refused : Option Bytes → Creation

-- A function that returns ZETA_OK, or the negative code -(n + 1) and perhaps a message.
pub data Status : Type 0 where
  fine : Status
  failed : ℕ → Option Bytes → Status

-- The same for a function that writes a text on success.
pub data Answer : Type 0 where
  wrote : Bytes → Answer
  denied : ℕ → Option Bytes → Answer

-- The calls of `zeta_bind_*`, with what they are given.
pub data Bound (F D : Type 0) : Type 0 where
  null : Bound F D
  bool int64 int32 : ℤ → Bound F D
  double : D → Bound F D
  text blob : Bytes → ℤ → Bound F D
  vector : List F → ℤ → Bound F D

-- The engine's listeners of the developer build.
pub data Listener : Type 0 where
  pgwire mysqlwire : Listener

-- libzeta.a, and C's `float` and `double`. Every function of zeta.h that the code calls is a
-- function of the engine's state and of the handles' names; what creates a handle is told its name.
pub record Platform : Type 1 where
  pub State : Type 0
  pub Float : Type 0
  pub Double : Type 0
  pub widen : Float → Double
  pub narrow : Double → Float
  pub float_zero : Float
  pub double_zero : Double
  pub version : Bytes
  pub open_db : State → ℕ → OpenCall → Creation × State
  pub close : State → ℕ → State
  pub errcode : State → ℕ → ℤ
  pub errmsg : State → ℕ → Bytes
  pub changes : State → ℕ → ℤ
  pub begin_isolation : State → ℕ → ℕ → ℤ → Creation × State
  pub commit : State → ℕ → Status × State
  pub rollback : State → ℕ → ℤ × State
  pub prepare : State → ℕ → ℕ → Bytes → Creation × State
  pub txn_prepare : State → ℕ → ℕ → Bytes → Creation × State
  pub bind : State → ℕ → ℤ → Bound Float Double → ℤ × State
  pub step : State → ℕ → ℤ × State
  pub reset : State → ℕ → ℤ × State
  pub finalize : State → ℕ → State
  pub stmt_errmsg : State → ℕ → Option Bytes
  pub column_count : State → ℕ → ℤ
  pub column_name : State → ℕ → ℤ → Option Bytes
  pub column_type : State → ℕ → ℤ → ℤ
  pub column_int64 : State → ℕ → ℤ → ℤ
  pub column_double : State → ℕ → ℤ → Double
  pub column_text : State → ℕ → ℤ → Option Bytes
  pub column_blob : State → ℕ → ℤ → Option Bytes
  pub list_tables : State → ℕ → Answer × State
  pub table_info : State → ℕ → Bytes → Answer × State
  pub start_listener : State → Listener → ℕ → Bytes → Status × State
  pub stop_listeners : State → ℕ → ℤ × State

-- What a live C object is. A statement knows the transaction that it was prepared in, if any, and
-- whether its last step returned a row; `message` is a string for `zeta_free`, `c_string` one for
-- `free`.
pub data Obj : Type 0 where
  database transaction c_string : Obj
  statement : Option ℕ → Bool → Obj
  message : Bytes → Obj

abbrev pub Heap : Type 0
Heap = ℕ → Option Obj

-- The engine's state, the live objects, the next name, and the Go objects that matter.
pub record World (e : Platform) (G : Type 0) : Type 0 where
  pub engine : e.State
  pub heap : Heap
  pub next : ℕ
  pub go : G

pub data Outcome (A : Type 0) : Type 0 where
  returns : A → Outcome A
  -- a C function was called outside its contract
  undefined : Outcome A
  -- a `Lock` waits for another goroutine
  blocks : Outcome A
  -- a mutex was unlocked that nobody holds: Go's run time ends the program
  fatal : Outcome A
  -- the fuel of a loop ran out
  exhausted : Outcome A

abbrev pub chain : {A B : Type 0} → Outcome A → (A → Outcome B) → Outcome B
chain (returns a) f = f a
chain undefined f = undefined
chain blocks f = blocks
chain fatal f = fatal
chain exhausted f = exhausted

abbrev pub M : Platform → Type 0 → Type 0 → Type 0
M e G A = World e G → Outcome (A × World e G)

module _ {e : Platform} {G : Type 0} where
  abbrev pub pure : {A : Type 0} → A → M e G A
  pure a w = returns (a, w)

  infixl 5 ◌>>=◌ ◌>>◌
  abbrev pub ◌>>=◌ : {A B : Type 0} → M e G A → (A → M e G B) → M e G B
  ◌>>=◌ m f w = chain (m w) (λ r. f r.0 r.1)

  abbrev pub ◌>>◌ : {A B : Type 0} → M e G A → M e G B → M e G B
  m >> n = m >>= λ _. n

  -- `defer fin`: it runs once `body` has returned.
  abbrev pub deferring : {A B : Type 0} → M e G B → M e G A → M e G A
  deferring fin body = do r ← body; fin; pure r

abbrev pub put : Heap → ℕ → Option Obj → Heap
put h p o q = if p == q then o else h q

-- The name and the content of the live object behind a pointer, if it is of the wanted kind.
abbrev pub locate : {X : Type 0} → (Obj → Option X) → Ptr → Heap → Option (ℕ × X)
locate kind none h = none
locate kind (some p) h = elim (h p) [
  | none ↦ none
  | some o ↦ elim (kind o) [ none ↦ none | some x ↦ some (p, x) ]
]

module _ {e : Platform} {G : Type 0} where
  -- A C function that is given a pointer to anything else is undefined.
  unfoldable pub the : {X : Type 0} → (Obj → Option X) → Ptr → M e G (ℕ × X)
  the kind p w = elim (locate kind p w.heap) [ none ↦ undefined | some a ↦ returns (a, w) ]

  -- The engine runs.
  unfoldable pub ask : {A : Type 0} → (e.State → A × e.State) → M e G A
  ask f w = let (a, s) = f w.engine in returns (a, record w { engine = s })

  unfoldable pub alloc : Obj → M e G ℕ
  alloc o w = returns (w.next, record w { heap = put w.heap w.next (some o); next = suc w.next })

  unfoldable pub store : ℕ → Option Obj → M e G (Unit {0})
  store p o w = returns (tt, record w { heap = put w.heap p o })

  -- The Go objects are read and written.
  unfoldable pub get_go : M e G G
  get_go w = returns (w.go, w)

  unfoldable pub set_go : G → M e G (Unit {0})
  set_go g w = returns (tt, record w { go = g })

abbrev pub as_database : Obj → Option (Unit {0})
as_database database = some tt
as_database _ = none

abbrev pub as_transaction : Obj → Option (Unit {0})
as_transaction transaction = some tt
as_transaction _ = none

abbrev pub as_statement : Obj → Option (Option ℕ × Bool)
as_statement (statement owner row) = some (owner, row)
as_statement _ = none

-- A statement whose current row can be read.
abbrev pub as_row : Obj → Option (Unit {0})
as_row (statement owner row) = if row then some tt else none
as_row _ = none

abbrev pub as_message : Obj → Option Bytes
as_message (message b) = some b
as_message _ = none

abbrev pub as_c_string : Obj → Option (Unit {0})
as_c_string c_string = some tt
as_c_string _ = none
