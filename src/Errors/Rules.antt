-- ===== src/Errors/Rules.antt =====
-- The functions that make an error return, and free the error string that they are given.
use zeta_go.Prelude.{ℕ, ◌≡◌, Bool, Option, none, some, arith}
use zeta_go.Prelude.Int.{ℤ}
use zeta_go.Machine.{Ptr, Platform, World, Heap, Obj, put, statement}
use zeta_go.Machine.Rules.{Returns, Returns-returns, Returns-chain}
use zeta_go.Machine.Heaps.{At, At-heap}
use zeta_go.Capi.Rules.{Says, go_string-Returns, zeta_free-Returns, zeta_stmt_errmsg-Returns}
use zeta_go.Errors.Defs.{ErrorKind}
use zeta_go.Errors.Report.{consume_err_msg, stmt_error}

-- A heap that gains a fresh cell and loses it again is what it was.
pub put_fresh :
    (h : Heap) (p : ℕ) (o : Option Obj) → h p ≡ none → (q : ℕ) → put (put h p o) p none q ≡ h q
put_fresh h p o e q = ground arith

pub put_same : (h : Heap) (p : ℕ) (o : Option Obj) → put h p o p ≡ o
put_same h p o = ground arith

-- Of two writes to a cell the second counts.
pub put_twice :
    (h : Heap) (p : ℕ) (o o' : Option Obj) (q : ℕ) → put (put h p o) p o' q ≡ put h p o' q
put_twice h p o o' q = ground arith

module _ {e : Platform} {G : Type 0} {h : Heap} {g : G} (w : World e G) where
  -- The error string, if there is one, is freed, and nothing else changes.
  pub consume_err_msg-Returns :
      (msg : Ptr) (k : ErrorKind)
      → Says h g msg w
      → Returns (consume_err_msg msg k w) (λ r. At h g r.1)
  unfolding consume_err_msg
  consume_err_msg-Returns none k a = Returns-returns _ a
  consume_err_msg-Returns (some p) k (t, new, a) =
      Returns-chain _ _ (go_string-Returns w a p t (ground arith)) (λ r b.
        Returns-chain _ _ (zeta_free-Returns r.1 b.1 p t (ground arith))
          (λ r' c. Returns-returns _ (At-heap (put_fresh h p _ new) c)))

  pub stmt_error-Returns :
      (a : At h g w) (p : ℕ) (owner : Option ℕ) (row : Bool) (code : ℤ)
      → h p ≡ some (statement owner row)
      → Returns (stmt_error (some p) code w) (λ r. At h g r.1)
  unfolding stmt_error
  stmt_error-Returns a p owner row code live =
      Returns-chain _ _ (zeta_stmt_errmsg-Returns w a p owner row live) (λ r b. Returns-returns _ b)
