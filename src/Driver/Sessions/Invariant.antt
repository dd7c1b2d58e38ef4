-- ===== src/Driver/Sessions/Invariant.antt =====
-- Where a connection and a statement on it stand together.
use zeta_go.Prelude.{ℕ, ◌≡◌, sym, ◌∙◌, ◌⊎◌, inl, inr, Bool, true, none, some, arith}
use mathlib.Core.Path.{subst}
use zeta_go.Machine.{
  Bytes, Ptr, Platform, World, M, Obj, Heap, put, statement, database, transaction,
}
use zeta_go.Machine.Rules.{Returns, Returns-returns, Returns-chain, Returns-mono}
use zeta_go.Machine.Heaps.{At, At-heap}
use zeta_go.Capi.Rules.{zeta_finalize-Returns}
use zeta_go.Errors.Rules.{put_same}
use zeta_go.Driver.Conn.{Conn}
use zeta_go.Driver.Conn.Calls.{nowhere, on, Connects, shut, rests, works}
use zeta_go.Driver.Stmt.{Stmt, close}
use zeta_go.Driver.Stmt.Context.{IsTxn, wanted, Holds, bare, holding}
use zeta_go.Driver.Stmt.Runs.{Kept}

-- The statement's handle is NULL, or live and counted among the objects that are not the
-- connection's; `h` is the heap without the objects of both.
pub data InSession {e : Platform} (h : Heap) : Stmt → World e Conn → Type 0 where
  unprepared :
      (sql : Bytes) (b closed : Bool) (w : World e Conn)
      → Connects h w
      → InSession h (record { handle = none; query = sql; in_txn = b; is_closed = closed }) w
  ready :
      (p : ℕ) (row : Bool) (owner : Ptr) (sql : Bytes) (closed : Bool) (w : World e Conn)
      → h p ≡ none
      → Connects (put h p (some (statement owner row))) w
      → InSession h
          (record { handle = some p; query = sql; in_txn = wanted owner; is_closed = closed })
          w

-- The objects of an open connection: its database, and its transaction if there is one.
abbrev pub linked : ℕ → Ptr → Heap → Heap
linked d none h = put h d (some database)
linked d (some t) h = put (put h d (some database)) t (some transaction)

abbrev pub IsFree : ℕ → Ptr → Heap → Type 0
IsFree d none h = h d ≡ none
IsFree d (some t) h = (h d ≡ none) × (put h d (some database) t ≡ none)

pub Connects-linked :
    {e : Platform} (h : Heap) (d : ℕ) (t : Ptr) (w : World e Conn)
    → IsFree d t h
    → At (linked d t h) (on d t) w
    → Connects h w
Connects-linked h d none w free a = rests d w free a
Connects-linked h d (some t) w free a = works d t w free.0 free.1 a

pub linked-database : (h : Heap) (d : ℕ) (t : Ptr) → IsFree d t h → linked d t h d ≡ some database
linked-database h d none free = put_same h d _
linked-database h d (some t) free = ground (arith, free.1)

pub linked-IsTxn : (h : Heap) (d : ℕ) (t : Ptr) → IsTxn (linked d t h) t
linked-IsTxn h d none = tt
linked-IsTxn h d (some t) = put_same (put h d (some database)) t _

-- Another object beside those of a connection.
module _ (h : Heap) (d p : ℕ) (o : Obj) where
  beside : (t : Ptr) → IsFree d t (put h p (some o)) → h p ≡ none → linked d t h p ≡ none
  beside none free new = ground (arith, free, new)
  beside (some t) free new = ground (arith, free.0, free.1, new)

  IsFree-without : (t : Ptr) → IsFree d t (put h p (some o)) → IsFree d t h
  IsFree-without none free = ground (arith, free)
  IsFree-without (some t) free = (ground (arith, free.0), ground (arith, free.0, free.1))

  IsFree-with : (t : Ptr) → IsFree d t h → linked d t h p ≡ none → IsFree d t (put h p (some o))
  IsFree-with none free new = ground (arith, free, new)
  IsFree-with (some t) free new = (ground (arith, free.0, new), ground (arith, free.0, free.1, new))

  linked_below : (t : Ptr) → linked d t h p ≡ none → h p ≡ none
  linked_below none new = ground (arith, new)
  linked_below (some t) new = ground (arith, new)

  linked-put :
      (t : Ptr)
      → linked d t h p ≡ none
      → (q : ℕ) → put (linked d t h) p (some o) q ≡ linked d t (put h p (some o)) q
  linked-put none new q = ground (arith, new)
  linked-put (some t) new q = ground (arith, new)

-- A connection is closed, or open.
pub linked_or_shut :
    {e : Platform} {h : Heap} (w : World e Conn)
    → Connects h w
    → At h nowhere w ⊎ ((d : ℕ) × (t : Ptr) × IsFree d t h × At (linked d t h) (on d t) w)
linked_or_shut w (shut _ a) = inl a
linked_or_shut w (rests d _ new a) = inr (d, none, new, a)
linked_or_shut w (works d t _ new free a) = inr (d, some t, (new, free), a)

pub Kept-InSession :
    {e : Platform} (h : Heap) (d : ℕ) (t : Ptr) (s : Stmt) (w : World e Conn)
    → IsFree d t h
    → Kept (linked d t h) (on d t) s w
    → InSession h s w
Kept-InSession h d t s w free (owner, bare sql b closed _ a) =
    unprepared sql b closed w (Connects-linked h d t w free a)
Kept-InSession h d t s w free (owner, holding p row sql closed _ new a) =
    ready p row owner sql closed w (linked_below h d p (statement owner row) t new) (
      Connects-linked (put h p (some (statement owner row))) d t w
        (IsFree-with h d p (statement owner row) t free new)
        (At-heap (linked-put h d p (statement owner row) t new) a))

-- An operation on a statement keeps a session if it keeps the statement's handle on an open
-- connection, and does nothing on a closed one.
pub operation-InSession :
    {e : Platform} {h : Heap} (op : M e Conn Stmt) (s : Stmt) (w : World e Conn)
    → ((d : ℕ) (t old : Ptr) (h' : Heap)
        → h' d ≡ some database
        → IsTxn h' t
        → Holds h' (on d t) old s w
        → Returns (op w) (λ r. Kept h' (on d t) r.0 r.1))
    → ((h' : Heap) → At h' nowhere w → Returns (op w) (λ r. (r.0 ≡ s) × At h' nowhere r.1))
    → InSession h s w
    → Returns (op w) (λ r. InSession h r.0 r.1)
operation-InSession {h = h} op s w opened closed (unprepared sql b over _ c) =
    elim (linked_or_shut w c) [
      | inl a ↦
          Returns-mono _
            (λ r k.
              subst (λ x. InSession h x r.1) (sym k.0) (unprepared sql b over r.1 (shut r.1 k.1)))
            (closed h a)
      | inr (d, t, free, a) ↦
          Returns-mono _ (λ r k. Kept-InSession h d t r.0 r.1 free k)
            (opened d t none (linked d t h) (linked-database h d t free) (linked-IsTxn h d t)
              (bare sql b over w a))
    ]
operation-InSession {h = h} op s w opened closed (ready p row owner sql over _ new c) =
    elim (linked_or_shut w c) [
      | inl a ↦
          Returns-mono _
            (λ r k.
              subst (λ x. InSession h x r.1) (sym k.0)
                (ready p row owner sql over r.1 new (shut r.1 k.1)))
            (closed (put h p (some (statement owner row))) a)
      | inr (d, t, free, a) ↦
          let o = statement owner row in
          let free' = IsFree-without h d p o t free in
          let new' = beside h d p o t free new in
          Returns-mono _ (λ r k. Kept-InSession h d t r.0 r.1 free' k)
            (opened d t owner (linked d t h) (linked-database h d t free') (linked-IsTxn h d t)
              (holding p row sql over w new' (At-heap (λ q. sym (linked-put h d p o t new' q)) a)))
    ]

-- A live statement on a connection, open or closed, is finalized.
finalized-Connects :
    {e : Platform} {h : Heap} (p : ℕ) (o : Obj) (w : World e Conn)
    → h p ≡ none
    → Connects (put h p (some o)) w
    → (c : Conn) × (h' : Heap) × At h' c w
      × (h' p ≡ some o)
      × ((w' : World e Conn) → At (put h' p none) c w' → Connects h w')
finalized-Connects {h = h} p o w new k = elim (linked_or_shut w k) [
  | inl a ↦ (
    nowhere,
    put h p (some o),
    a,
    put_same h p _,
    λ w' b. shut w' (At-heap (λ q. ground (arith, new)) b),
  )
  | inr (d, t, free, a) ↦
      let new' = beside h d p o t free new in
      (
        on d t,
        linked d t (put h p (some o)),
        a,
        sym (linked-put h d p o t new' p) ∙ put_same (linked d t h) p _,
        λ w' b.
            Connects-linked h d t w' (IsFree-without h d p o t free)
              (At-heap (λ q. cleared h d p o t new' q) b),
      )
]
  where
    cleared :
        (h : Heap) (d p : ℕ) (o : Obj) (t : Ptr)
        → linked d t h p ≡ none
        → (q : ℕ) → put (linked d t (put h p (some o))) p none q ≡ linked d t h q
    cleared h d p o none new q = ground (arith, new)
    cleared h d p o (some t) new q = ground (arith, new)

-- `Close` of a statement, on an open or a closed connection.
pub close-InSession :
    {e : Platform} {h : Heap} (s : Stmt) (w : World e Conn)
    → InSession h s w
    → Returns (close s w) (λ r. InSession h r.0.1 r.1 × Connects h r.1)
unfolding close
close-InSession s w (unprepared sql b over _ c) = Returns-returns _ (unprepared sql b true w c, c)
close-InSession {h = h} s w (ready p row owner sql over _ new k) =
    let f = finalized-Connects {h = h} p (statement owner row) w new k in
    Returns-chain _ _ (zeta_finalize-Returns w f.2 p owner row f.3)
      (λ r b. Returns-returns _ (unprepared sql (wanted owner) true r.1 (f.4 r.1 b), f.4 r.1 b))
