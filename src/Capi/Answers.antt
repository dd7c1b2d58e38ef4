-- ===== src/Capi/Answers.antt =====
-- The functions of zeta.h that report a code and perhaps a text: what they allocate.
use zeta_go.Prelude.{ℕ, ◌≡◌, refl, none, some}
use zeta_go.Prelude.Int.{ℤ}
use zeta_go.Machine.{
  Bytes, Ptr, Answer, wrote, denied, Status, fine, failed, Listener, Platform, World, Heap, put,
  database, message, as_database,
}
use zeta_go.Machine.Rules.{Returns, Returns-returns, Returns-chain}
use zeta_go.Machine.Heaps.{At, the-chain, ask-Returns, ask-chain, alloc-chain}
use zeta_go.Capi.Defs.{
  zeta_ok, deliver, report, zeta_list_tables, zeta_table_info, zeta_start, zeta_stop_listeners,
}
use zeta_go.Capi.Rules.{Says, Reports, message_of-Returns}

-- On success a fresh text and no error string; on failure perhaps an error string.
pub data Delivers {e : Platform} {G : Type 0} (h : Heap) (g : G)
    : ℤ × Ptr × Ptr → World e G → Type 0 where
  text_out :
      (p : ℕ) (t : Bytes) (w : World e G)
      → h p ≡ none
      → At (put h p (some (message t))) g w
      → Delivers h g (zeta_ok, some p, none) w
  error_out :
      (n : ℕ) (msg : Ptr) (w : World e G) → Says h g msg w → Delivers h g (ℤ.negsuc n, none, msg) w

module _ {e : Platform} {G : Type 0} {h : Heap} {g : G} (w : World e G) (a : At h g w) where
  deliver-Returns : (r : Answer) → Returns (deliver r w) (λ r. Delivers h g r.0 r.1)
  unfolding deliver
  deliver-Returns (wrote t) =
      alloc-chain w a (message t) _ (λ n w' new b. Returns-returns _ (text_out n t w' new b))
  deliver-Returns (denied n m) =
      Returns-chain _ _ (message_of-Returns w a m)
        (λ r b. Returns-returns _ (error_out n r.0 r.1 b))

  report-Returns : (s : Status) → Returns (report s w) (λ r. Reports h g r.0.0 r.0.1 r.1)
  unfolding report
  report-Returns fine = Returns-returns _ ((λ _. refl), a)
  report-Returns (failed n m) =
      Returns-chain _ _ (message_of-Returns w a m) (λ r b. Returns-returns _ ((λ z. cc), b))

module _ {e : Platform} {G : Type 0} {h : Heap} {g : G} (w : World e G) (a : At h g w) (d : ℕ)
    (live : h d ≡ some database) where
  pub zeta_list_tables-Returns : Returns (zeta_list_tables (some d) w) (λ r. Delivers h g r.0 r.1)
  unfolding zeta_list_tables
  zeta_list_tables-Returns =
      the-chain w a as_database d database tt _ live refl
        (ask-chain w a _ _ (λ r w' b. deliver-Returns w' b r))

  pub zeta_table_info-Returns :
      (name : Bytes) → Returns (zeta_table_info (some d) name w) (λ r. Delivers h g r.0 r.1)
  unfolding zeta_table_info
  zeta_table_info-Returns name =
      the-chain w a as_database d database tt _ live refl
        (ask-chain w a _ _ (λ r w' b. deliver-Returns w' b r))

  pub zeta_start-Returns :
      (l : Listener) (addr : Bytes)
      → Returns (zeta_start l (some d) addr w) (λ r. Reports h g r.0.0 r.0.1 r.1)
  unfolding zeta_start
  zeta_start-Returns l addr =
      the-chain w a as_database d database tt _ live refl
        (ask-chain w a _ _ (λ r w' b. report-Returns w' b r))

  pub zeta_stop_listeners-Returns : Returns (zeta_stop_listeners (some d) w) (λ r. At h g r.1)
  unfolding zeta_stop_listeners
  zeta_stop_listeners-Returns =
      the-chain w a as_database d database tt _ live refl (ask-Returns w a _)
