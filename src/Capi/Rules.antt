-- ===== src/Capi/Rules.antt =====
-- The C functions do what their contracts say whenever they are given live objects.
use zeta_go.Prelude.{ℕ, ◌≡◌, refl, ◌∙◌, Bool, true, Option, none, some}
use zeta_go.Prelude.Int.{ℤ, eq_ℤ}
use zeta_go.Machine.{
  Bytes, Ptr, Platform, World, Heap, Obj, Bound, Creation, created, refused, Status, fine, failed,
  database, transaction, c_string, statement, message, put, as_database, as_transaction,
  as_statement, as_message, as_c_string, OpenCall,
}
use zeta_go.Machine.Rules.{Returns, Returns-returns, Returns-chain, Returns-mono}
use zeta_go.Machine.Heaps.{
  At, store-Returns, ask-Returns, the-chain, ask-chain, alloc-chain, store-chain, ask_answer,
  store_answer,
}
use zeta_go.Capi.Defs.{
  c_string_of, free, message_of, zeta_free, go_string, make, settle, zeta_open, zeta_close,
  zeta_errcode, zeta_changes, zeta_prepare, zeta_txn_prepare, zeta_begin_isolation, zeta_bind,
  zeta_step, zeta_reset, zeta_finalize, zeta_stmt_errmsg, zeta_commit, zeta_rollback, report,
  zeta_ok, zeta_row, zeta_column_count, zeta_column_name,
}

-- An error string is NULL or a live message.
abbrev pub IsMessage : Heap → Ptr → Type 0
IsMessage h none = Unit {0}
IsMessage h (some p) = (m : Bytes) × (h p ≡ some (message m))

-- An error string is NULL, or a fresh message.
abbrev pub Says : {e : Platform} {G : Type 0} → Heap → G → Ptr → World e G → Type 0
Says h g none w = At h g w
Says h g (some m) w = (t : Bytes) × (h m ≡ none) × At (put h m (some (message t))) g w

-- A function that returns a code makes an error string only if it fails.
abbrev pub Reports : {e : Platform} {G : Type 0} → Heap → G → ℤ → Ptr → World e G → Type 0
Reports h g rc msg w = (eq_ℤ rc zeta_ok ≡ true → msg ≡ none) × Says h g msg w

-- What `make` leaves: a fresh object and no error string, or no object and perhaps a string.
abbrev pub Makes : {e : Platform} {G : Type 0} → Heap → G → Obj → Ptr → Ptr → World e G → Type 0
Makes h g o (some p) msg w = (h p ≡ none) × (msg ≡ none) × At (put h p (some o)) g w
Makes h g o none msg w = Says h g msg w

module _ {e : Platform} {G : Type 0} {h : Heap} {g : G} (w : World e G) (a : At h g w) where
  pub c_string_of-Returns :
      Returns
        (c_string_of w)
        (λ r. (p : ℕ) × (r.0 ≡ some p) × (h p ≡ none) × At (put h p (some c_string)) g r.1)
  unfolding c_string_of
  c_string_of-Returns =
      alloc-chain w a c_string _ (λ n w' new b. Returns-returns _ (n, refl, new, b))

  pub free-Returns :
      (p : ℕ) → h p ≡ some c_string → Returns (free (some p) w) (λ r. At (put h p none) g r.1)
  unfolding free
  free-Returns p live =
      the-chain w a as_c_string p c_string tt _ live refl (store-Returns w a p none (λ z. cc))

  pub zeta_free-Returns :
      (p : ℕ) (m : Bytes)
      → h p ≡ some (message m)
      → Returns (zeta_free (some p) w) (λ r. At (put h p none) g r.1)
  unfolding zeta_free
  zeta_free-Returns p m live =
      the-chain w a as_message p (message m) m _ live refl (store-Returns w a p none (λ z. cc))

  pub go_string-Returns :
      (p : ℕ) (m : Bytes)
      → h p ≡ some (message m)
      → Returns (go_string (some p) w) (λ r. (r.0 ≡ m) × At h g r.1)
  unfolding go_string
  go_string-Returns p m live =
      the-chain w a as_message p (message m) m _ live refl (Returns-returns _ (refl, a))

  pub message_of-Returns : (m : Option Bytes) → Returns (message_of m w) (λ r. Says h g r.0 r.1)
  unfolding message_of
  message_of-Returns none = Returns-returns _ a
  message_of-Returns (some m) =
      alloc-chain w a (message m) _ (λ n w' new b. Returns-returns _ (m, new, b))

module _ {e : Platform} {G : Type 0} {h : Heap} {g : G} (w : World e G) (a : At h g w) where
  settle-Returns :
      (c : Creation) (o : Obj) → Returns (settle c o w) (λ r. Makes h g o r.0.0 r.0.1 r.1)
  unfolding settle
  settle-Returns created o = alloc-chain w a o _ (λ n w' new b. Returns-returns _ (new, refl, b))
  settle-Returns (refused m) o =
      Returns-chain _ _ (message_of-Returns w a m) (λ r b. Returns-returns _ b)

  report-Returns : (st : Status) → Returns (report st w) (λ r. Reports h g r.0.0 r.0.1 r.1)
  unfolding report
  report-Returns fine = Returns-returns _ (λ _. refl, a)
  report-Returns (failed n m) =
      Returns-chain _ _ (message_of-Returns w a m) (λ r b. Returns-returns _ (λ z. cc, b))

module _ {e : Platform} {G : Type 0} {h : Heap} {g : G} (w : World e G) (a : At h g w) where
  pub make-Returns :
      (f : ℕ → e.State → Creation × e.State) (o : Obj)
      → Returns (make f o w) (λ r. Makes h g o r.0.0 r.0.1 r.1)
  unfolding make
  make-Returns f o = ask-chain w a (f w.next) _ (λ c w' b. settle-Returns w' b c o)

  pub zeta_open-Returns :
      (c : OpenCall) → Returns (zeta_open c w) (λ r. Makes h g database r.0.0 r.0.1 r.1)
  unfolding zeta_open
  zeta_open-Returns c = make-Returns _ database

  module _ (d : ℕ) (live : h d ≡ some database) where
    pub zeta_close-Returns : Returns (zeta_close (some d) w) (λ r. At (put h d none) g r.1)
    unfolding zeta_close
    zeta_close-Returns =
        the-chain w a as_database d database tt _ live refl
          (ask-chain w a _ _ (λ _ w' b. store-Returns w' b d none (λ z. cc)))

    pub zeta_errcode-Returns : Returns (zeta_errcode (some d) w) (λ r. At h g r.1)
    unfolding zeta_errcode
    zeta_errcode-Returns = the-chain w a as_database d database tt _ live refl (ask-Returns w a _)

    pub zeta_changes-Returns : Returns (zeta_changes (some d) w) (λ r. At h g r.1)
    unfolding zeta_changes
    zeta_changes-Returns = the-chain w a as_database d database tt _ live refl (ask-Returns w a _)

    pub zeta_begin_isolation-Returns :
        (level : ℤ)
        → Returns
            (zeta_begin_isolation (some d) level w)
            (λ r. Makes h g transaction r.0.0 r.0.1 r.1)
    unfolding zeta_begin_isolation
    zeta_begin_isolation-Returns level =
        the-chain w a as_database d database tt _ live refl (make-Returns _ transaction)

    pub zeta_prepare-Returns :
        (sql : Bytes)
        → Returns
            (zeta_prepare (some d) sql w)
            (λ r. Makes h g (statement none Bool.false) r.0.0 r.0.1 r.1)
    unfolding zeta_prepare
    zeta_prepare-Returns sql =
        the-chain w a as_database d database tt _ live refl (make-Returns _ _)

  module _ (t : ℕ) (live : h t ≡ some transaction) where
    pub zeta_txn_prepare-Returns :
        (sql : Bytes)
        → Returns
            (zeta_txn_prepare (some t) sql w)
            (λ r. Makes h g (statement (some t) Bool.false) r.0.0 r.0.1 r.1)
    unfolding zeta_txn_prepare
    zeta_txn_prepare-Returns sql =
        the-chain w a as_transaction t transaction tt _ live refl (make-Returns _ _)

    pub zeta_commit-Returns :
        Returns (zeta_commit (some t) w) (λ r. Reports (put h t none) g r.0.0 r.0.1 r.1)
    unfolding zeta_commit
    zeta_commit-Returns = the-chain w a as_transaction t transaction tt _ live refl (
        ask-chain w a _ _
          (λ st w' b. store-chain w' b t none _ (λ z. cc) (λ w'' c. report-Returns w'' c st)))

    pub zeta_rollback-Returns : Returns (zeta_rollback (some t) w) (λ r. At (put h t none) g r.1)
    unfolding zeta_rollback
    zeta_rollback-Returns = the-chain w a as_transaction t transaction tt _ live refl (
        ask-chain w a _ _
          (λ rc w' b. store-chain w' b t none _ (λ z. cc) (λ w'' c. Returns-returns _ c)))

  module _ (p : ℕ) (owner : Option ℕ) (row : Bool) (live : h p ≡ some (statement owner row)) where
    pub zeta_bind-Returns :
        (i : ℤ) (v : Bound e.Float e.Double) → Returns (zeta_bind (some p) i v w) (λ r. At h g r.1)
    unfolding zeta_bind
    zeta_bind-Returns i v =
        the-chain w a as_statement p (statement owner row) (owner, row) _ live refl
          (ask-Returns w a _)

    pub zeta_stmt_errmsg-Returns : Returns (zeta_stmt_errmsg (some p) w) (λ r. At h g r.1)
    unfolding zeta_stmt_errmsg
    zeta_stmt_errmsg-Returns =
        the-chain w a as_statement p (statement owner row) (owner, row) _ live refl
          (ask-Returns w a _)

    pub zeta_column_count-Returns :
        Returns (zeta_column_count (some p) w) (λ r. (r.0 ≡ e.column_count w.engine p) × At h g r.1)
    unfolding zeta_column_count
    zeta_column_count-Returns =
        the-chain w a as_statement p (statement owner row) (owner, row) _ live refl
          (Returns-mono _ (λ r b. (b.0, b.2)) (ask_answer w a _))

    pub zeta_column_name-Returns :
        (i : ℤ) → Returns (zeta_column_name (some p) i w) (λ r. At h g r.1)
    unfolding zeta_column_name
    zeta_column_name-Returns i =
        the-chain w a as_statement p (statement owner row) (owner, row) _ live refl
          (ask-Returns w a _)

    pub zeta_finalize-Returns : Returns (zeta_finalize (some p) w) (λ r. At (put h p none) g r.1)
    unfolding zeta_finalize
    zeta_finalize-Returns =
        the-chain w a as_statement p (statement owner row) (owner, row) _ live refl
          (ask-chain w a _ _ (λ _ w' b. store-Returns w' b p none (λ z. cc)))

    -- The step itself, with what the engine answers.
    pub zeta_step-Returns : Returns (zeta_step (some p) w) (λ r.
        (r.0 ≡ (e.step w.engine p).0)
        × (r.1.engine ≡ (e.step w.engine p).1)
        × At (put h p (some (statement owner (eq_ℤ r.0 zeta_row)))) g r.1)
    unfolding zeta_step
    zeta_step-Returns =
        the-chain w a as_statement p (statement owner row) (owner, row) _ live refl
          (Returns-chain _ _ (ask_answer w a (λ s. e.step s p)) (λ r b.
            Returns-chain _ _ (store_answer r.1 b.2 p _ (λ z. cc))
              (λ r' c. Returns-returns _ (b.0, c.0 ∙ b.1, c.1))))

    pub zeta_reset-Returns :
        Returns
          (zeta_reset (some p) w)
          (λ r. At (put h p (some (statement owner Bool.false))) g r.1)
    unfolding zeta_reset
    zeta_reset-Returns =
        the-chain w a as_statement p (statement owner row) (owner, row) _ live refl
          (ask-chain w a _ _
            (λ rc w' b. store-chain w' b p _ _ (λ z. cc) (λ w'' c. Returns-returns _ c)))
