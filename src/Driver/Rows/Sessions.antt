-- ===== src/Driver/Rows/Sessions.antt =====
-- A query of a prepared statement, with its rows: the statement's handle stays.
use mathlib.Core.Path.{subst}
use zeta_go.Prelude.{
  ℕ, zero, suc, ◌+◌, ◌≡◌, refl, sym, ◌∙◌, Bool, Bool-cases, true, false, not, ◌||◌, inl, inr, none,
  some, List, [], ◌∷◌, ◌++◌,
}
use zeta_go.Prelude.Int.{ℤ, eq_ℤ}
use zeta_go.Machine.{
  Bytes, Ptr, Platform, World, M, pure, ◌>>=◌, ◌>>◌, Heap, put, statement, database,
}
use zeta_go.Machine.Rules.{Returns, Returns-returns, Returns-chain, Returns-mono}
use zeta_go.Machine.Heaps.{At, At-heap, Keeps, Keeps-pure, Keeps-bind, Keeps-map}
use zeta_go.Capi.{zeta_row, zeta_done}
use zeta_go.Capi.Rules.{zeta_step-Returns, zeta_reset-Returns, zeta_column_count-Returns}
use zeta_go.Errors.{Result, ok, err}
use zeta_go.Errors.Rules.{put_same, put_twice, stmt_error-Returns}
use zeta_go.Params.{c_int}
use zeta_go.Columns.{Value, column_to_any, column_type_at}
use zeta_go.Columns.Rules.{column_read-Keeps, column_to_any-Keeps}
use zeta_go.Rows.Reads.{all_names-Keeps}
use zeta_go.Rows.Lifecycle.{Counts}
use zeta_go.Driver.Conn.{Conn}
use zeta_go.Driver.Values.{DriverValue}
use zeta_go.Driver.Stmt.Context.{IsTxn, Holds, holding, wanted}
use zeta_go.Driver.Stmt.Runs.{Kept, Steps, query-Steps}
use zeta_go.Driver.Stmt.{Stmt, RowState, query}
use zeta_go.Driver.Rows.{
  rounds, columns, close, column_to_value, values_from, read_row, after_step, next,
}

-- The rows of a live handle `p`: if one is pending, the handle is at a row.
data Reads {e : Platform} (h : Heap) (c : Conn) (p : ℕ) (owner : Ptr)
    : RowState → World e Conn → Type 0 where
  reads :
      (row pending done closed : Bool) (w : World e Conn)
      → (not pending || row) ≡ true
      → At (put h p (some (statement owner row))) c w
      → Reads h c p owner (record { pending = pending; done = done; is_closed = closed }) w

-- The calls that database/sql makes of rows.
pub data RowCall : Type 0 where
  -- `Next` with a number of places
  nexts : ℕ → RowCall
  names closes : RowCall

module _ {e : Platform} where
  unfoldable pub row_call : Stmt → RowCall → RowState → M e Conn RowState
  row_call s (nexts places) r = do b ← next s r places; pure b.1
  row_call s names r = do columns s r; pure r
  row_call s closes r = close s r

  unfoldable pub row_calls : Stmt → List RowCall → RowState → M e Conn RowState
  row_calls s [] r w = pure r w
  row_calls s (c ∷ cs) r w = (row_call s c r >>= row_calls s cs) w

  -- `Query`, calls on its rows, and their `Close`, if there are any; the statement is given back.
  unfoldable pub use_query : List RowCall → Result RowState × Stmt → M e Conn Stmt
  use_query cs (ok r, s) = do r' ← row_calls s cs r; close s r'; pure s
  use_query cs (err x, s) = pure s

module _ {e : Platform} {h : Heap} {c : Conn} (p : ℕ) (owner : Ptr)
    (live : h p ≡ some (statement owner true)) where
  column_to_value-Keeps : (i : ℤ) → Keeps h c (column_to_value {e = e} (some p) i)
  unfolding column_to_value column_type_at
  column_to_value-Keeps i =
      Keeps-bind _ (λ t. column_to_any (some p) i t) (column_read-Keeps p owner live _)
        (λ t. column_to_any-Keeps p owner live i t)

  values_from-Keeps :
      (k m i : ℕ) (out : List (Value e)) → Keeps h c (values_from {e = e} (some p) k m i out)
  unfolding values_from
  values_from-Keeps zero m i out = Keeps-pure _
  values_from-Keeps (suc k) zero i out = Keeps-pure _
  values_from-Keeps (suc k) (suc m) i out =
      Keeps-bind _ (λ v. values_from (some p) k m (i + 1) (out ++ v ∷ []))
        (column_to_value-Keeps (c_int i)) (λ v. values_from-Keeps k m (i + 1) _)

-- A statement with the live handle `p`.
abbrev with_handle : ℕ → Ptr → Bytes → Stmt
with_handle p owner sql = record {
  handle = some p;
  query = sql;
  in_txn = wanted owner;
  is_closed = false;
}

module _ {e : Platform} (h : Heap) (c : Conn) (p : ℕ) (owner : Ptr) (sql : Bytes) where
  read_row-Reads :
      (pending done closed : Bool) (places : ℕ) (w : World e Conn)
      → At (put h p (some (statement owner true))) c w
      → Returns
          (read_row
            (with_handle p owner sql)
            (record { pending = pending; done = done; is_closed = closed })
            places
            w)
          (λ r. Reads h c p owner r.0.1 r.1)
  unfolding read_row
  read_row-Reads pending done closed places w a =
      Returns-chain _ _ (zeta_column_count-Returns w a p owner true (put_same h p _)) (λ r k.
        Returns-chain _ _
          ((values_from-Keeps p owner (put_same h p _) (rounds r.0) places 0 []).at r.1 k.1)
          (λ r' m. Returns-returns _ (reads true false done closed r'.1 refl m)))

  after_step-Reads :
      (done closed : Bool) (places : ℕ) (rc : ℤ) (w : World e Conn)
      → At (put h p (some (statement owner (eq_ℤ rc zeta_row)))) c w
      → Returns
          (after_step
            (with_handle p owner sql)
            (record { pending = false; done = done; is_closed = closed })
            places
            rc
            w)
          (λ r. Reads h c p owner r.0.1 r.1)
  unfolding after_step
  after_step-Reads done closed places rc w a = elim (Bool-cases (eq_ℤ rc zeta_row)) [
    | inl more ↦
        rw (more, after_step)
          (read_row-Reads false done closed places w
            (subst (λ b. At (put h p (some (statement owner b))) c w) more a))
    | inr other ↦ elim (Bool-cases (eq_ℤ rc zeta_done)) [
      | inl over ↦
          rw (other, over, after_step)
            (Returns-returns _ (reads (eq_ℤ rc zeta_row) false true closed w refl a))
      | inr bad ↦
          rw (other, bad, after_step)
            (Returns-chain _ _ (stmt_error-Returns w a p owner _ rc (put_same h p _))
              (λ r k. Returns-returns _ (reads (eq_ℤ rc zeta_row) false true closed r.1 refl k)))
    ]
  ]

  next-Reads :
      (places : ℕ) (r : RowState) (w : World e Conn)
      → Reads h c p owner r w
      → Returns (next (with_handle p owner sql) r places w) (λ r'. Reads h c p owner r'.0.1 r'.1)
  unfolding next
  next-Reads places r w (reads row pending done true _ at a) =
      Returns-returns _ (reads row pending done true w at a)
  next-Reads places r w (reads row true done false _ at a) =
      read_row-Reads true done false places w
        (subst (λ b. At (put h p (some (statement owner b))) c w) at a)
  next-Reads places r w (reads row false true false _ at a) =
      Returns-returns _ (reads row false true false w at a)
  next-Reads places r w (reads row false false false _ at a) =
      Returns-chain _ _ (zeta_step-Returns w a p owner row (put_same h p _))
        (λ s k. after_step-Reads false false places s.0 s.1 (At-heap (put_twice h p _ _) k.2))

  close-Reads :
      (r : RowState) (w : World e Conn)
      → Reads h c p owner r w
      → Returns (close (with_handle p owner sql) r w) (λ r'. Reads h c p owner r'.0 r'.1)
  unfolding close
  close-Reads r w (reads row pending done true _ at a) =
      Returns-returns _ (reads row pending done true w at a)
  close-Reads r w (reads row pending done false _ at a) =
      Returns-chain _ _ (zeta_reset-Returns w a p owner row (put_same h p _)) (λ s k.
        Returns-returns _ (reads false false true true s.1 refl (At-heap (put_twice h p _ _) k)))

  columns-Reads :
      (counts : Counts e) (r : RowState) (w : World e Conn)
      → Reads h c p owner r w
      → Returns (columns (with_handle p owner sql) r w) (λ r'. Reads h c p owner r r'.1)
  unfolding columns
  columns-Reads counts r w (reads row pending done true _ at a) =
      Returns-returns _ (reads row pending done true w at a)
  columns-Reads counts r w (reads row pending done false _ at a) =
      Returns-mono _ (λ r' k. reads row pending done false r'.1 at k)
        (Returns-chain _ _ (zeta_column_count-Returns w a p owner row (put_same h p _)) (λ r' k.
          rw (k.0 ∙ (counts w.engine p).1) (
            (Keeps-map _ (λ names. some names)
                (all_names-Keeps p owner row (put_same h p _) (counts w.engine p).0)).at
              r'.1 k.1)))

  row_call-Reads :
      (counts : Counts e) (call : RowCall) (r : RowState) (w : World e Conn)
      → Reads h c p owner r w
      → Returns (row_call (with_handle p owner sql) call r w) (λ r'. Reads h c p owner r'.0 r'.1)
  unfolding row_call
  row_call-Reads counts (nexts places) r w i =
      Returns-chain _ _ (next-Reads places r w i) (λ r' k. Returns-returns _ k)
  row_call-Reads counts names r w i =
      Returns-chain _ _ (columns-Reads counts r w i) (λ r' k. Returns-returns _ k)
  row_call-Reads counts closes r w i = close-Reads r w i

  row_calls-Reads :
      (counts : Counts e) (cs : List RowCall) (r : RowState) (w : World e Conn)
      → Reads h c p owner r w
      → Returns (row_calls (with_handle p owner sql) cs r w) (λ r'. Reads h c p owner r'.0 r'.1)
  unfolding row_calls
  row_calls-Reads counts [] r w i = Returns-returns _ i
  row_calls-Reads counts (call ∷ cs) r w i =
      Returns-chain _ _ (row_call-Reads counts call r w i)
        (λ r' k. row_calls-Reads counts cs r'.0 r'.1 k)

module _ {e : Platform} (h : Heap) (c : Conn) (p : ℕ) (owner : Ptr) (sql : Bytes) where
  -- What is left of an open query keeps the handle.
  Reads-Kept :
      (r : RowState) (w : World e Conn)
      → h p ≡ none
      → Reads h c p owner r w
      → Kept h c (with_handle p owner sql) w
  Reads-Kept r w new (reads row pending done closed _ at a) =
      (owner, holding p row sql false w new a)

-- `Query` of a prepared statement, its handle NULL or live, on an open connection whose transaction, if
-- any, is live, then any calls of `Next`, `Columns` and `Close` on its rows in any order, then `Close`:
-- if the engine counts no negative number of columns, all of them return, no C function is called
-- outside its contract, the statement's handle is NULL or live, and no other C object has changed.
pub query-Kept :
    {e : Platform} {h : Heap} (d : ℕ) (t old : Ptr) (s : Stmt) (args : List (DriverValue e))
    (cs : List RowCall) (w : World e Conn)
    → h d ≡ some database
    → IsTxn h t
    → Holds h (record { handle = some d; txn = t }) old s w
    → Counts e
    → Returns
        ((query s args >>= use_query cs) w)
        (λ r. Kept h (record { handle = some d; txn = t }) r.0 r.1)
unfolding use_query
query-Kept {e} {h} d t old s args cs w ld lt i counts =
    Returns-chain _ _ (query-Steps d t old s args w ld lt i) (λ r k. used r.0.0 r.0.1 r.1 k)
  where
    c : Conn
    c = record { handle = some d; txn = t }

    used :
        (x : Result RowState) (s' : Stmt) (w' : World e Conn)
        → Steps h c x s' w'
        → Returns (use_query cs (x, s') w') (λ r. Kept h c r.0 r.1)
    used (err x) s' w' k = Returns-returns _ k
    used (ok r) s' w' (p, owner, row, sql, new, q, at, a) =
        subst (λ y. Returns (use_query cs (ok r, y) w') (λ r. Kept h c r.0 r.1)) (sym q)
          (Returns-chain _ _
            (row_calls-Reads h c p owner sql counts cs r w'
              (reads row r.pending r.done r.is_closed w' at a))
            (λ r' k.
              Returns-chain _ _ (close-Reads h c p owner sql r'.0 r'.1 k)
                (λ r'' m. Returns-returns _ (Reads-Kept h c p owner sql r''.0 r''.1 new m))))
