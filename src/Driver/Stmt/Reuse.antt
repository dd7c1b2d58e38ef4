-- ===== src/Driver/Stmt/Reuse.antt =====
-- When `ensurePrepared` keeps a handle, and whether that handle is of the present transaction.
use mathlib.Core.Path.{subst}
use zeta_go.Prelude.{ℕ, ◌≡◌, ap, Bool, ◌⊎◌, inl, inr, none, some, arith}
use zeta_go.Machine.{Ptr, Platform, World, Heap, put, statement}
use zeta_go.Machine.Rules.{Returns, Returns-mono}
use zeta_go.Machine.Heaps.{At}
use zeta_go.Errors.{Result, ok, err}
use zeta_go.Database.Contract.{IsOpen}
use zeta_go.Driver.Conn.{Conn}
use zeta_go.Driver.Stmt.{Stmt, ensure_prepared}
use zeta_go.Driver.Stmt.Context.{IsTxn, wanted, Holds, Ensures, ensure_prepared-Ensures}

-- An error, with the statement's handle NULL or live; or a live handle of the connection's present
-- transaction.
abbrev pub Current : {e : Platform} → Heap → Conn → Result (Unit {0}) → Stmt → World e Conn → Type 0
Current h c (err x) s w = (owner : Ptr) × Holds h c owner s w
Current h c (ok u) s w =
    (p : ℕ) × (row : Bool) × (s.handle ≡ some p) × At (put h p (some (statement c.txn row))) c w

module _ {e : Platform} {h : Heap} where
  -- On an open or closed connection whose transaction, if any, is live, with a handle that is NULL or
  -- live: if the handle was prepared outside a transaction, or no transaction is open, or it was
  -- prepared in the one that is open, `ensurePrepared` answers an error, or a live handle that is
  -- prepared in the connection's transaction, or in none where none is open.
  pub ensure_prepared-Current :
      (c : Conn) (old : Ptr) (s : Stmt) (w : World e Conn)
      → IsOpen h c.handle
      → IsTxn h c.txn
      → Holds h c old s w
      → (old ≡ none) ⊎ (c.txn ≡ none) ⊎ (old ≡ c.txn)
      → Returns (ensure_prepared s w) (λ r. Current h c r.0.0 r.0.1 r.1)
  ensure_prepared-Current c old s w o lt i fits =
      Returns-mono _ (λ r. read r.0.0 r.0.1 r.1) (ensure_prepared-Ensures c old s w o lt i)
    where
      owner_of :
          (owner : Ptr)
          → (owner ≡ c.txn) ⊎ ((owner ≡ old) × (wanted old ≡ wanted c.txn))
          → owner ≡ c.txn
      owner_of owner (inl q) = q
      owner_of owner (inr (q, m)) = ground (arith, fits)

      read :
          (x : Result (Unit {0})) (s' : Stmt) (w' : World e Conn)
          → Ensures h c old s.query x s' w'
          → Current h c x s' w'
      read (err x) s' w' k = k
      read (ok u) s' w' (p, owner, row, q, new, a, m) = (
        p,
        row,
        ap (λ (s : Stmt). s.handle) q,
        subst (λ (y : Ptr). At (put h p (some (statement y row))) c w') (owner_of owner m) a,
      )
