-- ===== src/Capi/Defs.antt =====
-- Each function asks that its pointers name live objects of the right kind, as its comment in
-- zeta.h says; a function that creates an object names it freshly.
use zeta_go.Prelude.{ℕ, false, Option, none, some, [], ◌∷◌, ◌==◌, if◌then◌else◌}
use zeta_go.Prelude.Int.{ℤ, pos, negsuc, eq_ℤ}
use zeta_go.Machine.{
  Bytes, Ptr, OpenCall, Creation, created, refused, Status, fine, failed, Answer, wrote, denied,
  Bound, Listener, Platform, Obj, database, transaction, c_string, statement, message, M, pure,
  ◌>>=◌, ◌>>◌, the, ask, alloc, store, as_database, as_transaction, as_statement, as_row,
  as_message, as_c_string, returns,
}

-- ZETA_OK, ZETA_ROW and ZETA_DONE
abbrev pub zeta_ok : ℤ
zeta_ok = pos 0

abbrev pub zeta_row : ℤ
zeta_row = pos 1

abbrev pub zeta_done : ℤ
zeta_done = pos 100

-- What C reads of Go bytes that `C.CString` copied: up to the first NUL.
abbrev pub until_nul : Bytes → Bytes
until_nul [] = []
until_nul (c ∷ s) = let rest = until_nul s in if c == 0 then [] else c ∷ rest

module _ {e : Platform} {G : Type 0} where
  -- `C.CString`: the copy is the caller's to free.
  unfoldable pub c_string_of : M e G Ptr
  c_string_of = do p ← alloc c_string; pure (some p)

  -- `C.free` of such a copy
  unfoldable pub free : Ptr → M e G (Unit {0})
  free p = do c ← the as_c_string p; store c.0 none

  -- An error string, if the function set its `err_msg`.
  unfoldable pub message_of : Option Bytes → M e G Ptr
  message_of none = pure none
  message_of (some m) = do p ← alloc (message m); pure (some p)

  unfoldable pub zeta_free : Ptr → M e G (Unit {0})
  zeta_free p = do c ← the as_message p; store c.0 none

  -- The text of a string that Zeta allocated.
  unfoldable pub go_string : Ptr → M e G Bytes
  go_string p = do c ← the as_message p; pure c.1

  next_name : M e G ℕ
  next_name w = returns (w.next, w)

  unfoldable pub settle : Creation → Obj → M e G (Ptr × Ptr)
  unfolding message_of
  settle created o = do p ← alloc o; pure (some p, none)
  settle (refused m) o = do p ← message_of m; pure (none, p)

  -- The handle and the error string of a function that makes an object.
  unfoldable pub make : (ℕ → e.State → Creation × e.State) → Obj → M e G (Ptr × Ptr)
  unfolding next_name settle
  make f o = do n ← next_name; c ← ask (f n); settle c o

  unfoldable pub zeta_open : OpenCall → M e G (Ptr × Ptr)
  zeta_open call = make (λ n s. e.open_db s n call) database

  unfoldable pub zeta_close : Ptr → M e G (Unit {0})
  zeta_close p = do d ← the as_database p; ask (λ s. (tt, e.close s d.0)); store d.0 none

  unfoldable pub zeta_errcode : Ptr → M e G ℤ
  zeta_errcode p = do d ← the as_database p; ask (λ s. (e.errcode s d.0, s))

  unfoldable pub zeta_errmsg : Ptr → M e G Bytes
  zeta_errmsg p = do d ← the as_database p; ask (λ s. (e.errmsg s d.0, s))

  unfoldable pub zeta_changes : Ptr → M e G ℤ
  zeta_changes p = do d ← the as_database p; ask (λ s. (e.changes s d.0, s))

  unfoldable pub zeta_begin_isolation : Ptr → ℤ → M e G (Ptr × Ptr)
  zeta_begin_isolation p level = do
    d ← the as_database p
    make (λ n s. e.begin_isolation s n d.0 level) transaction

  unfoldable pub zeta_prepare : Ptr → Bytes → M e G (Ptr × Ptr)
  zeta_prepare p sql = do
    d ← the as_database p
    make (λ n s. e.prepare s n d.0 (until_nul sql)) (statement none false)

  unfoldable pub zeta_txn_prepare : Ptr → Bytes → M e G (Ptr × Ptr)
  zeta_txn_prepare p sql = do
    t ← the as_transaction p
    make (λ n s. e.txn_prepare s n t.0 (until_nul sql)) (statement (some t.0) false)

  -- The return code and the error string.
  unfoldable pub report : Status → M e G (ℤ × Ptr)
  unfolding message_of
  report fine = pure (zeta_ok, none)
  report (failed n m) = do p ← message_of m; pure (negsuc n, p)

  -- The return code, the text and the error string.
  unfoldable pub deliver : Answer → M e G (ℤ × Ptr × Ptr)
  unfolding message_of
  deliver (wrote b) = do p ← alloc (message b); pure (zeta_ok, some p, none)
  deliver (denied n m) = do p ← message_of m; pure (negsuc n, none, p)

  -- The handle is freed whatever the outcome.
  unfoldable pub zeta_commit : Ptr → M e G (ℤ × Ptr)
  unfolding report
  zeta_commit p = do
    t ← the as_transaction p
    r ← ask (λ s. e.commit s t.0)
    store t.0 none
    report r

  unfoldable pub zeta_rollback : Ptr → M e G ℤ
  zeta_rollback none = pure zeta_ok
  zeta_rollback (some p) = do
    t ← the as_transaction (some p)
    rc ← ask (λ s. e.rollback s t.0)
    store t.0 none
    pure rc

  unfoldable pub zeta_bind : Ptr → ℤ → Bound e.Float e.Double → M e G ℤ
  zeta_bind p i v = do st ← the as_statement p; ask (λ s. e.bind s st.0 i v)

  unfoldable pub zeta_step : Ptr → M e G ℤ
  zeta_step p = do
    st ← the as_statement p
    rc ← ask (λ s. e.step s st.0)
    store st.0 (some (statement st.1.0 (eq_ℤ rc zeta_row)))
    pure rc

  unfoldable pub zeta_reset : Ptr → M e G ℤ
  zeta_reset p = do
    st ← the as_statement p
    rc ← ask (λ s. e.reset s st.0)
    store st.0 (some (statement st.1.0 false))
    pure rc

  unfoldable pub zeta_finalize : Ptr → M e G (Unit {0})
  zeta_finalize p = do st ← the as_statement p; ask (λ s. (tt, e.finalize s st.0)); store st.0 none

  unfoldable pub zeta_stmt_errmsg : Ptr → M e G (Option Bytes)
  zeta_stmt_errmsg p = do st ← the as_statement p; ask (λ s. (e.stmt_errmsg s st.0, s))

  unfoldable pub zeta_column_count : Ptr → M e G ℤ
  zeta_column_count p = do st ← the as_statement p; ask (λ s. (e.column_count s st.0, s))

  unfoldable pub zeta_column_name : Ptr → ℤ → M e G (Option Bytes)
  zeta_column_name p i = do st ← the as_statement p; ask (λ s. (e.column_name s st.0 i, s))

  -- The accessors of a row are called after ZETA_ROW.
  unfoldable pub column_read : {A : Type 0} → (e.State → ℕ → A) → Ptr → M e G A
  column_read f p = do st ← the as_row p; ask (λ s. (f s st.0, s))

  unfoldable pub zeta_list_tables : Ptr → M e G (ℤ × Ptr × Ptr)
  unfolding deliver
  zeta_list_tables p = do d ← the as_database p; r ← ask (λ s. e.list_tables s d.0); deliver r

  unfoldable pub zeta_table_info : Ptr → Bytes → M e G (ℤ × Ptr × Ptr)
  unfolding deliver
  zeta_table_info p name = do
    d ← the as_database p
    r ← ask (λ s. e.table_info s d.0 (until_nul name))
    deliver r

  unfoldable pub zeta_start : Listener → Ptr → Bytes → M e G (ℤ × Ptr)
  unfolding report
  zeta_start l p addr = do
    d ← the as_database p
    r ← ask (λ s. e.start_listener s l d.0 (until_nul addr))
    report r

  unfoldable pub zeta_stop_listeners : Ptr → M e G ℤ
  zeta_stop_listeners p = do d ← the as_database p; ask (λ s. e.stop_listeners s d.0)
