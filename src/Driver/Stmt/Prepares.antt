-- ===== src/Driver/Stmt/Prepares.antt =====
-- `prepare` of a connection: a statement with a live handle, or an error and none.
use zeta_go.Prelude.{ℕ, ◌≡◌, Bool, true, false, none, some}
use zeta_go.Machine.{Bytes, Ptr, Platform, World, Heap, database, pure}
use zeta_go.Machine.Rules.{Returns, Returns-returns, Returns-chain}
use zeta_go.Machine.Heaps.{At, get_go-chain}
use zeta_go.Errors.{Result, ok, err}
use zeta_go.Database.{checked}
use zeta_go.Database.Contract.{Prepares}
use zeta_go.Driver.Conn.{Conn}
use zeta_go.Driver.Stmt.{
  Stmt, new_stmt, renewed, prepare_anew, ensure_prepared, prepare, prepare_context,
}
use zeta_go.Driver.Stmt.Context.{IsTxn, wanted, Holds, holding, prepare_fresh_with}

-- What `prepare` answers, in the transaction `t` or in none.
abbrev pub Prepared : {e : Platform} → Heap → Conn → Ptr → Result Stmt → World e Conn → Type 0
Prepared h c t (ok s) w = Holds h c t s w
Prepared h c t (err x) w = At h c w

abbrev Renews :
    {e : Platform} → Heap → Conn → Ptr → Result (Unit {0}) → Stmt → World e Conn → Type 0
Renews h c t (ok u) s w = Holds h c t s w
Renews h c t (err x) s w = At h c w

module _ {e : Platform} {h : Heap} (d : ℕ) (ld : h d ≡ some database) (t : Ptr) (lt : IsTxn h t)
    (sql : Bytes) where
  renewed-Renews :
      (r : Result Ptr) (w : World e Conn)
      → Prepares h (record { handle = some d; txn = t }) t r w
      → Returns
          (renewed (new_stmt sql) (wanted t) r w)
          (λ s. Renews h (record { handle = some d; txn = t }) t s.0.0 s.0.1 s.1)
  unfolding renewed
  renewed-Renews (ok none) w k = absurd k
  renewed-Renews (ok (some p)) w (new, a) = Returns-returns _ (holding p false sql false w new a)
  renewed-Renews (err x) w a = Returns-returns _ a

  ensure_prepared-Renews :
      (w : World e Conn)
      → At h (record { handle = some d; txn = t }) w
      → Returns
          (ensure_prepared (new_stmt sql) w)
          (λ s. Renews h (record { handle = some d; txn = t }) t s.0.0 s.0.1 s.1)
  unfolding ensure_prepared prepare_anew
  ensure_prepared-Renews w a =
      get_go-chain w a _
        (prepare_fresh_with d ld t lt _ (new_stmt sql) w (λ r w' k. renewed-Renews r w' k) a)

  prepare-Prepared :
      (w : World e Conn)
      → At h (record { handle = some d; txn = t }) w
      → Returns (prepare sql w) (λ r. Prepared h (record { handle = some d; txn = t }) t r.0 r.1)
  unfolding prepare
  prepare-Prepared w a =
      get_go-chain w a _
        (Returns-chain _ _ (ensure_prepared-Renews w a) (λ r k. answer r.0.0 r.0.1 r.1 k))
    where
      answer :
          (x : Result (Unit {0})) (s : Stmt) (w' : World e Conn)
          → Renews h (record { handle = some d; txn = t }) t x s w'
          → Returns
              (checked x (λ u. pure (ok s)) w')
              (λ r. Prepared h (record { handle = some d; txn = t }) t r.0 r.1)
      answer (ok u) s w' k = Returns-returns _ k
      answer (err x) s w' a = Returns-returns _ a

-- On a closed connection there is only an error.
abbrev pub Closed : {e : Platform} → Heap → Result Stmt → World e Conn → Type 0
Closed h (ok s) w = ⊥
Closed h (err x) w = At h (record { handle = none; txn = none }) w

pub prepare_context-Closed :
    {e : Platform} {h : Heap} (ended : Bool) (sql : Bytes) (w : World e Conn)
    → At h (record { handle = none; txn = none }) w
    → Returns (prepare_context ended sql w) (λ r. Closed h r.0 r.1)
unfolding prepare_context prepare
prepare_context-Closed true sql w a = Returns-returns _ a
prepare_context-Closed false sql w a = get_go-chain w a _ (Returns-returns _ a)

-- `PrepareContext`, whether its context has ended or not.
pub prepare_context-Prepared :
    {e : Platform} {h : Heap} (d : ℕ) (t : Ptr) (ended : Bool) (sql : Bytes) (w : World e Conn)
    → h d ≡ some database
    → IsTxn h t
    → At h (record { handle = some d; txn = t }) w
    → Returns
        (prepare_context ended sql w)
        (λ r. Prepared h (record { handle = some d; txn = t }) t r.0 r.1)
unfolding prepare_context
prepare_context-Prepared d t true sql w ld lt a = Returns-returns _ a
prepare_context-Prepared d t false sql w ld lt a = prepare-Prepared d ld t lt sql w a
