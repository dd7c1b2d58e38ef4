-- ===== src/Rows/Reads.antt =====
-- `Columns` and `Scan` leave the iterator as it is: what they read is there.
use zeta_go.Prelude.{
  ℕ, zero, suc, ◌+◌, ◌≡◌, refl, ◌∙◌, Bool, true, false, not, Option, none, some, List, [], ◌∷◌,
  ◌++◌,
}
use mathlib.Core.Path.{subst}
use zeta_go.Prelude.Lists.{length}
use zeta_go.Prelude.Int.{pos, eq_ℤ}
use zeta_go.Machine.{Bytes, Ptr, Platform, World, M, Heap, put, statement, as_statement}
use zeta_go.Machine.Rules.{Returns, Returns-returns, Returns-chain, Returns-mono}
use zeta_go.Machine.Stays.{Stays, Stays-pure, Stays-if, Stays-bind}
use zeta_go.Machine.Heaps.{the-chain, ask_answer, At, Keeps, Keeps-pure, Keeps-bind, Keeps-map}
use zeta_go.Capi.{zeta_column_count}
use zeta_go.Capi.Rules.{zeta_column_count-Returns, zeta_column_name-Returns}
use zeta_go.Errors.{Result, ok, err}
use zeta_go.Errors.Rules.{put_same}
use zeta_go.Params.{c_int}
use zeta_go.Columns.{Dest, Stored, go_text}
use zeta_go.Columns.Rules.{scan_column-Stays}
use zeta_go.Database.{Database}
use zeta_go.Database.Contract.{held}
use zeta_go.Rows.Protocol.{Iterates, finished, reading}
use zeta_go.Rows.{Rows, columns, names_from, all_names, scan, scan_from, after_scan, scan_row}

module _ {e : Platform} {h : Heap} {g : Database} (p : ℕ) (owner : Option ℕ)
    (live : h p ≡ some (statement owner true)) where
  after_scan-Stays :
      (i : ℕ) (out : List (Stored e)) (r : Result (Stored e))
      (rest : List (Stored e) → M e Database (List (Stored e) × Result (Unit {0})))
      → ((out' : List (Stored e)) → Stays h g (rest out'))
      → Stays h g (after_scan i out r rest)
  unfolding after_scan
  after_scan-Stays i out (ok v) rest k = k (out ++ v ∷ [])
  after_scan-Stays i out (err x) rest k = Stays-pure _

  scan_from-Stays :
      (i : ℕ) (ds : List Dest) (out : List (Stored e))
      → Stays h g (scan_from {e = e} (some p) i ds out)
  unfolding scan_from
  scan_from-Stays i [] out = Stays-pure _
  scan_from-Stays i (d ∷ ds) out =
      Stays-bind _ (λ r. after_scan i out r (scan_from (some p) (i + 1) ds))
        (scan_column-Stays p owner live (c_int i) d)
        (λ r. after_scan-Stays i out r _ (scan_from-Stays (i + 1) ds))

  column_count-Stays : Stays h g (zeta_column_count {e = e} {G = Database} (some p))
  unfolding zeta_column_count
  column_count-Stays = record {
    at = λ w a.
        the-chain w a as_statement p (statement owner true) (owner, true) _ live refl
          (Returns-mono _ (λ r b. (b.1, b.2)) (ask_answer w a _));
  }

  scan_row-Stays : (dest : List Dest) → Stays h g (scan_row {e = e} (some p) dest)
  unfolding scan_row
  scan_row-Stays dest = Stays-bind _ _ column_count-Stays (λ n.
      Stays-if (not (eq_ℤ (pos (length dest)) n)) _ _ (Stays-pure _) (scan_from-Stays 0 dest []))

  -- `Scan` at a row only looks.
  pub scan-Stays :
      (dest : List Dest)
      → Stays h g (
          scan {e = e}
            (record { stmt = some p; is_closed = false; last_err = none; at_row = true })
            dest)
  unfolding scan
  scan-Stays dest = record { at = (scan_row-Stays dest).at }

module _ {e : Platform} {G : Type 0} {h : Heap} {g : G} (p : ℕ) (owner : Option ℕ) (row : Bool)
    (live : h p ≡ some (statement owner row)) where
  names_from-Keeps :
      (k i : ℕ) (out : List Bytes) → Keeps h g (names_from {e = e} {G = G} (some p) k i out)
  unfolding names_from
  names_from-Keeps zero i out = Keeps-pure _
  names_from-Keeps (suc k) i out =
      Keeps-bind _ (λ name. names_from (some p) k (i + 1) (out ++ go_text name ∷ []))
        (record { at = λ w a. zeta_column_name-Returns w a p owner row live (c_int i) })
        (λ name. names_from-Keeps k (i + 1) _)

  pub all_names-Keeps : (n : ℕ) → Keeps h g (all_names {e = e} {G = G} (some p) (pos n))
  unfolding all_names
  all_names-Keeps n = record { at = λ w a. (names_from-Keeps n 0 []).at w a }

module _ {e : Platform} {h : Heap} (ptr : Ptr) where
  -- `Scan` returns for any destinations and leaves the iterator where it stands.
  pub scan-Iterates :
      (r : Rows) (dest : List Dest) (w : World e Database)
      → Iterates h ptr r w
      → Returns (scan r dest w) (λ r'. Iterates h ptr r r'.1)
  unfolding scan
  scan-Iterates r dest w (finished s x at _ a) = Returns-returns _ (finished s x at w a)
  scan-Iterates r dest w (reading p owner row false _ new cur a) =
      Returns-returns _ (reading p owner row false w new cur a)
  scan-Iterates r dest w (reading p owner row true _ new cur a) =
      Returns-mono _ (λ r' b. reading p owner true true r'.1 new (λ _. refl) b.1)
        ((scan_row-Stays p owner (put_same h p _) dest).at w
          (subst (λ b. At (put h p (some (statement owner b))) (held ptr) w) (cur refl) a))

  -- So does `Columns`, where the engine counts no negative number of columns.
  pub columns-Iterates :
      (r : Rows) (w : World e Database)
      → ((s : e.State) (p : ℕ) → (n : ℕ) × (e.column_count s p ≡ pos n))
      → Iterates h ptr r w
      → Returns (columns r w) (λ r'. Iterates h ptr r r'.1)
  unfolding columns
  columns-Iterates r w counts (finished s x at _ a) = Returns-returns _ (finished s x at w a)
  columns-Iterates r w counts (reading p owner row false _ new cur a) =
      Returns-returns _ (reading p owner row false w new cur a)
  columns-Iterates r w counts (reading p owner row true _ new cur a) =
      let live = subst (λ b. At (put h p (some (statement owner b))) (held ptr) w) (cur refl) a in
      Returns-mono _ (λ r' b. reading p owner true true r'.1 new (λ _. refl) b)
        (Returns-chain _ _ (zeta_column_count-Returns w live p owner true (put_same h p _)) (λ r' b.
          rw (b.0 ∙ (counts w.engine p).1) (
            (Keeps-map _ (λ names. some names)
                (all_names-Keeps p owner true (put_same h p _) (counts w.engine p).0)).at
              r'.1 b.1)))
