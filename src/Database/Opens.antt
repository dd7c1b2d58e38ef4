-- ===== src/Database/Opens.antt =====
-- Opening a database: the C objects that are left.
use zeta_go.Prelude.{none, some}
use zeta_go.Machine.{Bytes, Ptr, at_path, in_memory, Platform, World, Heap, database}
use zeta_go.Machine.Rules.{Returns, Returns-returns, Returns-chain}
use zeta_go.Machine.Heaps.{At}
use zeta_go.Capi.{until_nul}
use zeta_go.Capi.Rules.{Makes, zeta_open-Returns, c_string_of-Returns}
use zeta_go.Errors.Rules.{consume_err_msg-Returns}
use zeta_go.Database.Contract.{Creates, free-Creates}
use zeta_go.Database.{opened, open_path, open_memory}

module _ {e : Platform} {G : Type 0} {h : Heap} {g : G} where
  opened-Creates :
      (r : Ptr × Ptr) (w : World e G)
      → Makes h g database r.0 r.1 w
      → Returns (opened r w) (λ r'. Creates h g database r'.0 r'.1)
  unfolding opened
  opened-Creates (none, msg) w a =
      Returns-chain _ _ (consume_err_msg-Returns w msg _ a) (λ r b. Returns-returns _ b)
  opened-Creates (some p, msg) w (new, _, a) = Returns-returns _ (new, a)

module _ {e : Platform} {G : Type 0} {h : Heap} {g : G} where
  pub open_path-Creates :
      (path : Bytes) (w : World e G)
      → At h g w
      → Returns (open_path path w) (λ r. Creates h g database r.0 r.1)
  unfolding open_path
  open_path-Creates path w a = Returns-chain _ _ (c_string_of-Returns w a) (λ r (n, here, new, b).
      rw here (
        Returns-chain _ _
          (Returns-chain _ _ (zeta_open-Returns r.1 b (at_path (until_nul path)))
            (λ r' c. opened-Creates r'.0 r'.1 c))
          (λ r' c. free-Creates n database r'.0 r'.1 new c)))

  pub open_memory-Creates :
      (w : World e G) → At h g w → Returns (open_memory w) (λ r. Creates h g database r.0 r.1)
  unfolding open_memory
  open_memory-Creates w a =
      Returns-chain _ _ (zeta_open-Returns w a in_memory) (λ r b. opened-Creates r.0 r.1 b)
