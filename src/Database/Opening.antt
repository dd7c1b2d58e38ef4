-- ===== src/Database/Opening.antt =====
-- Opening a database against what the engine does.
use zeta_go.Prelude.{◌≡◌, refl, sym, ℕ, Option, none, some, arith}
use mathlib.Core.Path.{subst}
use zeta_go.Prelude.Int.{ℤ, wrap}
use zeta_go.Machine.{
  Bytes, Ptr, OpenCall, at_path, at_path_mode, in_memory, created, refused, Platform, World, Heap,
  pure, ◌>>=◌, ◌>>◌, deferring, put, database, c_string,
}
use zeta_go.Machine.Rules.{Returns, Returns-returns, Returns-chain}
use zeta_go.Machine.Heaps.{At}
use zeta_go.Machine.Known.{In, In-heap}
use zeta_go.Capi.{until_nul, c_string_of, free, zeta_open}
use zeta_go.Capi.Known.{Made, new, silent, told, make_known, c_string_of_known, free_known}
use zeta_go.Errors.{GoError, zeta, unknown, Result, ok, err}
use zeta_go.Errors.Report.{text_or_empty}
use zeta_go.Errors.Rules.{put_fresh}
use zeta_go.Database.Reference.{unsaid, consumed}
use zeta_go.Database.{opened, open_path, open_mode, open_memory}

-- The error of a call that the engine refuses, with the message `m` if it gives one.
abbrev open_failure : Option Bytes → GoError
open_failure m = zeta (record { kind = unknown; text = text_or_empty m })

-- What comes of a call that opens a database: its handle, or that error.
pub data Opens {e : Platform} {G : Type 0} (s : e.State) (h : Heap) (g : G) (call : OpenCall)
    : Result Ptr → World e G → Type 0 where
  got :
      (n : ℕ) (t : e.State) (w : World e G)
      → e.open_db s n call ≡ (created, t)
      → h n ≡ none
      → In t (put h n (some database)) g w
      → Opens s h g call (ok (some n)) w
  lost :
      (n : ℕ) (t : e.State) (m : Option Bytes) (w : World e G)
      → e.open_db s n call ≡ (refused m, t)
      → In t h g w
      → Opens s h g call (err (open_failure m)) w

module _ {e : Platform} {G : Type 0} {s : e.State} {h : Heap} {g : G} (call : OpenCall) where
  opened_known :
      (r : Ptr × Ptr) (w : World e G)
      → Made s h g database (λ n s. e.open_db s n call) r w
      → Returns (opened r w) (λ r'. Opens s h g call r'.0 r'.1)
  unfolding opened
  opened_known r w (new n t _ q fresh i) = Returns-returns _ (got n t w q fresh i)
  opened_known r w (silent n t _ q i) = Returns-chain _ _ (unsaid unknown w i) (λ r (y, c).
      Returns-returns _ (subst (λ z. Opens s h g call (err z) r.1) (sym y) (lost n t none r.1 q c)))
  opened_known r w (told n t m p _ q fresh i) =
      Returns-chain _ _ (consumed p m unknown w fresh i) (λ r (y, c).
        Returns-returns _
          (subst (λ z. Opens s h g call (err z) r.1) (sym y) (lost n t (some m) r.1 q c)))

  zeta_open_known :
      (w : World e G)
      → In s h g w
      → Returns ((zeta_open call >>= opened) w) (λ r. Opens s h g call r.0 r.1)
  unfolding zeta_open
  zeta_open_known w i =
      Returns-chain _ _ (make_known w i database _) (λ r b. opened_known r.0 r.1 b)

module _ {e : Platform} {G : Type 0} {s : e.State} {h : Heap} {g : G} (call : OpenCall) where
  -- The copy of the path is freed.
  freed :
      (c : ℕ) (r : Result Ptr) (w : World e G)
      → h c ≡ none
      → Opens s (put h c (some c_string)) g call r w
      → Returns ((free (some c) >> pure r) w) (λ r'. Opens s h g call r'.0 r'.1)
  freed c r w fresh (got n t _ q there i) =
      Returns-chain _ _ (free_known w i c (ground (arith, there))) (λ r b.
        Returns-returns _
          (got n t r.1 q (ground (arith, there)) (In-heap (λ z. ground (arith, there, fresh)) b)))
  freed c r w fresh (lost n t m _ q i) =
      Returns-chain _ _ (free_known w i c (ground arith))
        (λ r b. Returns-returns _ (lost n t m r.1 q (In-heap (put_fresh h c _ fresh) b)))

  -- With the path as a C string.
  with_path :
      (w : World e G)
      → In s h g w
      → Returns
          ((c_string_of >>= λ cs. deferring (free cs) (zeta_open call >>= opened)) w)
          (λ r. Opens s h g call r.0 r.1)
  with_path w i = Returns-chain _ _ (c_string_of_known w i) (λ r (n, here, fresh, b).
      rw here (Returns-chain _ _ (zeta_open_known call r.1 b) (λ r' c. freed n r'.0 r'.1 fresh c)))

-- `Open`, `OpenMode` and `OpenMemory` return. The engine gets the path up to its first NUL, and the mode
-- in the 32 bits of a C int. Where it opens the database, they answer its handle, the only new C
-- object; otherwise they answer an error of unknown kind with the engine's message, or none, and
-- leave no C object behind. No other C object and no Go object has changed.
pub open-Opens :
    {e : Platform} {G : Type 0} {h : Heap} {g : G} (path : Bytes) (mode : ℤ) (w : World e G)
    → At h g w
    → Returns (open_path path w) (λ r. Opens w.engine h g (at_path (until_nul path)) r.0 r.1)
      × Returns
          (open_mode path mode w)
          (λ r. Opens w.engine h g (at_path_mode (until_nul path) (wrap 32 mode)) r.0 r.1)
      × Returns (open_memory w) (λ r. Opens w.engine h g in_memory r.0 r.1)
unfolding open_path open_mode open_memory
open-Opens {h = h} {g = g} path mode w a =
    let i : In w.engine h g w = record { at = a; engine = refl } in
    (with_path _ w i, with_path _ w i, zeta_open_known _ w i)
