-- ===== src/Rows/Scanned.antt =====
-- `Scan` against a reference: what the destinations take of the row in a state of the engine.
use zeta_go.Prelude.{
  ap, ℕ, ◌+◌, ◌≡◌, refl, sym, true, false, none, not, ◌||◌, Option, some, List, [], ◌∷◌, ◌++◌,
  if◌then◌else◌,
}
use mathlib.Core.List.{append-nil, append_assoc}
use mathlib.Core.Path.{subst}
use zeta_go.Prelude.Lists.{length}
use zeta_go.Prelude.Int.{pos, eq_ℤ}
use zeta_go.Machine.{Ptr, Platform, World, M, Heap, put, statement, as_statement}
use zeta_go.Machine.Rules.{Returns, Returns-returns, Returns-mono}
use zeta_go.Machine.Heaps.{the-chain, At}
use zeta_go.Machine.Known.{ask_known}
use zeta_go.Machine.Tells.{Tells, Tells-pure, Tells-if, Tells-bind}
use zeta_go.Capi.{zeta_column_count}
use zeta_go.Errors.{no_row, destinations, column, Result, ok, err}
use zeta_go.Params.{c_int}
use zeta_go.Columns.{Dest, Stored}
use zeta_go.Columns.Copied.{taken, scan_column-taken}
use zeta_go.Database.{Database}
use zeta_go.Database.Contract.{held}
use zeta_go.Errors.Rules.{put_same}
use zeta_go.Rows.Protocol.{Iterates, finished, reading}
use zeta_go.Rows.{Rows, scan, scan_from, after_scan, scan_row}

-- An iterator at a row of the statement `p`.
abbrev pub at_row_of : ℕ → Rows
at_row_of p = record { stmt = some p; is_closed = false; last_err = none; at_row = true }

-- One more destination, before what the others take.
abbrev and_then :
    {e : Platform}
    → ℕ
    → Result (Stored e)
    → List (Stored e) × Result (Unit {0})
    → List (Stored e) × Result (Unit {0})
and_then i (ok v) rest = (v ∷ rest.0, rest.1)
and_then i (err x) rest = ([], err (column i x))

-- The destinations from column `i` on: the values, and the error of the first that takes none.
abbrev filled : (e : Platform) → e.State → ℕ → ℕ → List Dest → List (Stored e) × Result (Unit {0})
filled e s p i [] = ([], ok tt)
filled e s p i (d ∷ ds) = and_then i (taken e s p (c_int i) d) (filled e s p (i + 1) ds)

-- The whole row.
abbrev pub scanned : (e : Platform) → e.State → ℕ → List Dest → List (Stored e) × Result (Unit {0})
scanned e s p ds =
    if not (eq_ℤ (pos (length ds)) (e.column_count s p))
    then ([], err (destinations (e.column_count s p) (length ds)))
    else filled e s p 0 ds

abbrev after :
    {e : Platform}
    → List (Stored e)
    → List (Stored e) × Result (Unit {0})
    → List (Stored e) × Result (Unit {0})
after out r = (out ++ r.0, r.1)

module _ {e : Platform} {s : e.State} {h : Heap} {g : Database} (p : ℕ) (owner : Option ℕ)
    (live : h p ≡ some (statement owner true)) where
  after_scan-after :
      (i : ℕ) (out : List (Stored e)) (r : Result (Stored e))
      (rest : List (Stored e) → M e Database (List (Stored e) × Result (Unit {0})))
      (f : List (Stored e) × Result (Unit {0}))
      → ((out' : List (Stored e)) → Tells s h g (after out' f) (rest out'))
      → Tells s h g (after out (and_then i r f)) (after_scan i out r rest)
  unfolding after_scan
  after_scan-after i out (ok v) rest f k =
      subst (λ l. Tells s h g (l, f.1) (rest (out ++ v ∷ []))) (append_assoc out (v ∷ []) f.0)
        (k (out ++ v ∷ []))
  after_scan-after i out (err x) rest f k = record {
    at = λ w j. Returns-returns _ (ap (λ l. (l, err (column i x))) (sym (append-nil out)), j);
  }

  scan_from-filled :
      (i : ℕ) (ds : List Dest) (out : List (Stored e))
      → Tells s h g (after out (filled e s p i ds)) (scan_from {e = e} (some p) i ds out)
  unfolding scan_from
  scan_from-filled i [] out = record {
    at = λ w j. Returns-returns _ (ap (λ l. (l, ok tt)) (sym (append-nil out)), j);
  }
  scan_from-filled i (d ∷ ds) out = record {
    at =
        (Tells-bind _ (λ r. after_scan i out r (scan_from (some p) (i + 1) ds)) _ _
          (scan_column-taken p owner live (c_int i) d)
          (after_scan-after i out _ _ _ (scan_from-filled (i + 1) ds))).at;
  }

  column_count-Tells :
      Tells s h g (e.column_count s p) (zeta_column_count {e = e} {G = Database} (some p))
  unfolding zeta_column_count
  column_count-Tells = record {
    at = λ w i.
        the-chain w i.at as_statement p (statement owner true) (owner, true) _ live refl
          (ask_known w i (λ t. (e.column_count t p, t)));
  }

  scan_row-scanned :
      (ds : List Dest) → Tells s h g (scanned e s p ds) (scan_row {e = e} (some p) ds)
  unfolding scan_row
  scan_row-scanned ds = Tells-bind _ _ _ _ column_count-Tells (
      Tells-if (not (eq_ℤ (pos (length ds)) (e.column_count s p))) _ _ _ _ (Tells-pure _)
        (scan_from-filled 0 ds []))

  -- `Scan` of an iterator at a row.
  pub scan-scanned :
      (ds : List Dest) → Tells s h g (scanned e s p ds) (scan {e = e} (at_row_of p) ds)
  unfolding scan
  scan-scanned ds = record { at = (scan_row-scanned ds).at }

-- What `Scan` reads for an iterator: ErrNoRow if it is closed or not at a row.
abbrev pub read_by :
    (e : Platform) → e.State → Rows → List Dest → List (Stored e) × Result (Unit {0})
read_by e s r ds =
    if r.is_closed || not r.at_row
    then ([], err no_row)
    else elim r.stmt [ none ↦ ([], err no_row) | some p ↦ scanned e s p ds ]

module _ {e : Platform} {h : Heap} (ptr : Ptr) where
  -- `Scan` of an iterator that keeps the protocol returns, moves neither the engine nor the iterator, and
  -- agrees with a reference: without a row it stores nothing and answers ErrNoRow; where the columns
  -- are not as many as the destinations, it stores nothing and answers both numbers; otherwise it
  -- stores for each destination in order what that takes of its column, numbered from 0, up to the
  -- first column whose type the destination cannot take, and answers that column's number and error.
  pub scan-Agrees :
      (r : Rows) (ds : List Dest) (w : World e Database)
      → Iterates h ptr r w
      → Returns (scan r ds w) (λ r'.
        (r'.0 ≡ read_by e w.engine r ds) × (r'.1.engine ≡ w.engine) × Iterates h ptr r r'.1)
  unfolding scan
  scan-Agrees r ds w (finished s x at _ a) = Returns-returns _ (refl, refl, finished s x at w a)
  scan-Agrees r ds w (reading p owner row false _ new cur a) =
      Returns-returns _ (refl, refl, reading p owner row false w new cur a)
  scan-Agrees r ds w (reading p owner row true _ new cur a) =
      Returns-mono _
        (λ r' (q, i). (q, i.engine, reading p owner true true r'.1 new (λ _. refl) i.at))
        ((scan_row-scanned p owner (put_same h p _) ds).at w (record {
          at = subst (λ b. At (put h p (some (statement owner b))) (held ptr) w) (cur refl) a;
          engine = refl;
        }))
