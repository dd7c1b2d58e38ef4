-- ===== src/Driver/Stmt/Context.antt =====
-- `ensurePrepared`: the statement's handle against the connection's transaction.
use zeta_go.Prelude.{
  ℕ, ◌≡◌, refl, Bool, Bool-cases, true, false, not, ◌⊎◌, inl, inr, none, some, arith,
}
use zeta_go.Machine.{
  Bytes, Ptr, Platform, World, Heap, put, statement, c_string, database, transaction,
}
use zeta_go.Machine.Rules.{Returns, Returns-returns, Returns-chain}
use zeta_go.Machine.Heaps.{At, At-heap, get_go-chain}
use zeta_go.Capi.Rules.{
  Makes, c_string_of-Returns, zeta_prepare-Returns, zeta_txn_prepare-Returns, zeta_finalize-Returns,
}
use zeta_go.Errors.{Result, ok, err}
use zeta_go.Errors.Rules.{put_fresh, put_same}
use zeta_go.Database.{is_nil}
use zeta_go.Database.Contract.{IsOpen, Prepares, prepared-Returns, free-Prepares}
use zeta_go.Driver.Conn.{Conn}
use zeta_go.Driver.Stmt.{
  Stmt, same, prepare_in, renewed, prepare_fresh, prepare_anew, ensure_prepared,
}

-- NULL, or a live transaction.
abbrev pub IsTxn : Heap → Ptr → Type 0
IsTxn h none = Unit {0}
IsTxn h (some t) = h t ≡ some transaction

-- Whether a transaction is open, as `want` in `ensurePrepared`.
abbrev pub wanted : Ptr → Bool
wanted txn = not (is_nil txn)

-- The handle of a statement in the world: NULL, or live and prepared in `owner`, which `inTxn`
-- tells from autocommit. `h` is the heap without it.
pub data Holds {e : Platform} (h : Heap) (c : Conn) (owner : Ptr)
    : Stmt → World e Conn → Type 0 where
  bare :
      (sql : Bytes) (b closed : Bool) (w : World e Conn)
      → At h c w
      → Holds h c owner (record { handle = none; query = sql; in_txn = b; is_closed = closed }) w
  holding :
      (p : ℕ) (row : Bool) (sql : Bytes) (closed : Bool) (w : World e Conn)
      → h p ≡ none
      → At (put h p (some (statement owner row))) c w
      → Holds h c owner
          (record { handle = some p; query = sql; in_txn = wanted owner; is_closed = closed })
          w

-- What `ensurePrepared` answers: an error, or a live handle, prepared in the connection's
-- transaction, or kept from `old` where both are a transaction or neither is.
abbrev pub Ensures :
    {e : Platform} → Heap → Conn → Ptr → Bytes → Result (Unit {0}) → Stmt → World e Conn → Type 0
Ensures h c old sql (err x) s w = (owner : Ptr) × Holds h c owner s w
Ensures h c old sql (ok u) s w =
    (p : ℕ) × (owner : Ptr) × (row : Bool) × (s
      ≡ record { handle = some p; query = sql; in_txn = wanted owner; is_closed = false })
    × (h p ≡ none)
    × At (put h p (some (statement owner row))) c w
    × ((owner ≡ c.txn) ⊎ ((owner ≡ old) × (wanted old ≡ wanted c.txn)))

abbrev conn : ℕ → Ptr → Conn
conn d t = record { handle = some d; txn = t }

module _ {e : Platform} {h : Heap} (d : ℕ) (ld : h d ≡ some database) where
  prepare_in-Returns :
      (t : Ptr) (sql : Bytes) (w : World e Conn)
      → IsTxn h t
      → At h (conn d t) w
      → Returns
          (prepare_in (wanted t) (conn d t) sql w)
          (λ r. Makes h (conn d t) (statement t false) r.0.0 r.0.1 r.1)
  unfolding prepare_in
  prepare_in-Returns none sql w lt a = zeta_prepare-Returns w a d ld sql
  prepare_in-Returns (some t) sql w lt a = zeta_txn_prepare-Returns w a t lt sql

-- A transaction stays when an unused cell is filled.
still-IsTxn :
    (h : Heap) (n : ℕ) (t : Ptr) → h n ≡ none → IsTxn h t → IsTxn (put h n (some c_string)) t
still-IsTxn h n none new lt = tt
still-IsTxn h n (some t) new lt = ground (arith, new, lt)

module _ {e : Platform} {h : Heap} (d : ℕ) (ld : h d ≡ some database) (t : Ptr)
    (lt : IsTxn h t) where
  renewed-Ensures :
      (old : Ptr) (sql : Bytes) (s : Ptr) (b : Bool) (r : Result Ptr) (w : World e Conn)
      → Prepares h (conn d t) t r w
      → Returns
          (renewed
            (record { handle = s; query = sql; in_txn = b; is_closed = false })
            (wanted t)
            r
            w)
          (λ r'. Ensures h (conn d t) old sql r'.0.0 r'.0.1 r'.1)
  unfolding renewed
  renewed-Ensures old sql s b (ok none) w a = absurd a
  renewed-Ensures old sql s b (ok (some p)) w (new, a) =
      Returns-returns _ (p, t, false, refl, new, a, inl refl)
  renewed-Ensures old sql s b (err x) w a = Returns-returns _ (t, bare sql b false w a)

  -- A fresh handle, or an error with none, is what `renewed` goes on with.
  pub prepare_fresh_with :
      (P : (Result (Unit {0}) × Stmt) × World e Conn → Type 0) (s : Stmt) (w : World e Conn)
      → ((r : Result Ptr) (w' : World e Conn)
          → Prepares h (conn d t) t r w'
          → Returns (renewed s (wanted t) r w') P)
      → At h (conn d t) w
      → Returns (prepare_fresh s (wanted t) (conn d t) w) P
  unfolding prepare_fresh
  prepare_fresh_with P s w next a =
      Returns-chain _ _ (c_string_of-Returns w a) (λ r (n, here, new, k).
        let db : put h n (some c_string) d ≡ some database = ground (arith, ld, new) in
        rw here (
          Returns-chain _ _
            (Returns-chain _ _
              (Returns-chain _ _
                (prepare_in-Returns d db t s.query r.1 (still-IsTxn h n t new lt) k)
                (λ r' c. prepared-Returns d db _ r'.0 r'.1 c))
              (λ r' c. free-Prepares n t r'.0 r'.1 new c))
            (λ r' c. next r'.0 r'.1 c)))

  prepare_fresh-Ensures :
      (old : Ptr) (sql : Bytes) (s : Ptr) (b : Bool) (w : World e Conn)
      → At h (conn d t) w
      → Returns
          (prepare_fresh
            (record { handle = s; query = sql; in_txn = b; is_closed = false })
            (wanted t)
            (conn d t)
            w)
          (λ r. Ensures h (conn d t) old sql r.0.0 r.0.1 r.1)
  prepare_fresh-Ensures old sql s b w a =
      prepare_fresh_with _ _ w (λ r w' k. renewed-Ensures old sql s b r w' k) a

  anew-bare :
      (old : Ptr) (sql : Bytes) (b : Bool) (w : World e Conn)
      → At h (conn d t) w
      → Returns
          (prepare_anew
            (record { handle = none; query = sql; in_txn = b; is_closed = false })
            (wanted t)
            (conn d t)
            w)
          (λ r. Ensures h (conn d t) old sql r.0.0 r.0.1 r.1)
  unfolding prepare_anew
  anew-bare old sql b w a = prepare_fresh-Ensures old sql none b w a

  anew-holding :
      (old : Ptr) (p : ℕ) (row : Bool) (sql : Bytes) (b : Bool) (w : World e Conn)
      → h p ≡ none
      → At (put h p (some (statement old row))) (conn d t) w
      → Returns
          (prepare_anew
            (record { handle = some p; query = sql; in_txn = b; is_closed = false })
            (wanted t)
            (conn d t)
            w)
          (λ r. Ensures h (conn d t) old sql r.0.0 r.0.1 r.1)
  unfolding prepare_anew
  anew-holding old p row sql b w new a =
      Returns-chain _ _ (zeta_finalize-Returns w a p old row (put_same h p _))
        (λ r k. prepare_fresh-Ensures old sql (some p) b r.1 (At-heap (put_fresh h p _ new) k))

same_context : (a b : Bool) → same a b ≡ true → a ≡ b
same_context true true q = refl
same_context true false q = cc
same_context false true q = cc
same_context false false q = refl

module _ {e : Platform} {h : Heap} where
  ensure-open :
      (d : ℕ) (t old : Ptr) (s : Stmt) (w : World e Conn)
      → h d ≡ some database
      → IsTxn h t
      → Holds h (conn d t) old s w
      → Returns (ensure_prepared s w) (λ r. Ensures h (conn d t) old s.query r.0.0 r.0.1 r.1)
  unfolding ensure_prepared
  ensure-open d t old s w ld lt (bare sql b true _ a) =
      get_go-chain w a _ (Returns-returns _ (old, bare sql b true w a))
  ensure-open d t old s w ld lt (bare sql b false _ a) =
      get_go-chain w a _ (anew-bare d ld t lt old sql b w a)
  ensure-open d t old s w ld lt (holding p row sql true _ new a) =
      get_go-chain w a _ (Returns-returns _ (old, holding p row sql true w new a))
  ensure-open d t old s w ld lt (holding p row sql false _ new a) =
      get_go-chain w a _ (elim (Bool-cases (same (wanted old) (wanted t))) [
        | inl keep ↦
            rw (keep, ensure_prepared)
              (Returns-returns _ (p, old, row, refl, new, a, inr (refl, same_context _ _ keep)))
        | inr change ↦
            rw (change, ensure_prepared) (anew-holding d ld t lt old p row sql (wanted old) w new a)
      ])

  ensure-closed :
      (t old : Ptr) (s : Stmt) (w : World e Conn)
      → Holds h (record { handle = none; txn = t }) old s w
      → Returns
          (ensure_prepared s w)
          (λ r. Ensures h (record { handle = none; txn = t }) old s.query r.0.0 r.0.1 r.1)
  unfolding ensure_prepared
  ensure-closed t old s w (bare sql b true _ a) =
      get_go-chain w a _ (Returns-returns _ (old, bare sql b true w a))
  ensure-closed t old s w (bare sql b false _ a) =
      get_go-chain w a _ (Returns-returns _ (old, bare sql b false w a))
  ensure-closed t old s w (holding p row sql true _ new a) =
      get_go-chain w a _ (Returns-returns _ (old, holding p row sql true w new a))
  ensure-closed t old s w (holding p row sql false _ new a) =
      get_go-chain w a _ (Returns-returns _ (old, holding p row sql false w new a))

  ensure-at :
      (p t old : Ptr) (s : Stmt) (w : World e Conn)
      → IsOpen h p
      → IsTxn h t
      → Holds h (record { handle = p; txn = t }) old s w
      → Returns
          (ensure_prepared s w)
          (λ r. Ensures h (record { handle = p; txn = t }) old s.query r.0.0 r.0.1 r.1)
  ensure-at none t old s w o lt i = ensure-closed t old s w i
  ensure-at (some d) t old s w o lt i = ensure-open d t old s w o lt i

  -- On an open or closed connection whose transaction, if any, is live, with a handle that is NULL or
  -- live, `ensurePrepared` returns. After an error the handle is NULL or live. Otherwise it is live and
  -- was prepared in the connection's transaction (in none where none is open), or is the old one, and
  -- both the old one's transaction and the connection's are there or neither is; no other C object
  -- has changed.
  pub ensure_prepared-Ensures :
      (c : Conn) (old : Ptr) (s : Stmt) (w : World e Conn)
      → IsOpen h c.handle
      → IsTxn h c.txn
      → Holds h c old s w
      → Returns (ensure_prepared s w) (λ r. Ensures h c old s.query r.0.0 r.0.1 r.1)
  ensure_prepared-Ensures c old s w o lt i = ensure-at c.handle c.txn old s w o lt i
