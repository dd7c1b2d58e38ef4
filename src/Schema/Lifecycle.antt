-- ===== src/Schema/Lifecycle.antt =====
-- `ListTables` and `TableInfo` return, free the engine's text, and leave the C objects as they were.
use zeta_go.Prelude.{sym, none, some, arith}
use zeta_go.Prelude.Int.{ℤ}
use zeta_go.Machine.{Bytes, Ptr, Platform, World, Heap}
use zeta_go.Machine.Rules.{Returns, Returns-returns, Returns-chain, Returns-mono}
use zeta_go.Machine.Heaps.{At, At-heap, At-go, get_go-chain}
use zeta_go.Capi.Rules.{c_string_of-Returns, free-Returns, go_string-Returns, zeta_free-Returns}
use zeta_go.Capi.Answers.{
  Delivers, text_out, error_out, zeta_list_tables-Returns, zeta_table_info-Returns,
}
use zeta_go.Errors.Rules.{put_fresh, put_same, consume_err_msg-Returns}
use zeta_go.Database.{Database}
use zeta_go.Database.Contract.{IsOpen, idle}
use zeta_go.Database.Exec.{IsReady, IsReady-At, critical-Returns}
use zeta_go.Schema.{answered, list_tables, table_info}

module _ {e : Platform} {h : Heap} {g : Database} where
  answered-Returns :
      {A : Type 0} (f : Bytes → A) (r : ℤ × Ptr × Ptr) (w : World e Database)
      → Delivers h g r w
      → Returns (answered f r w) (λ r'. At h g r'.1)
  unfolding answered
  answered-Returns f r w (text_out p t _ new a) =
      Returns-chain _ _ (go_string-Returns w a p t (put_same h p _)) (λ s b.
        Returns-chain _ _ (zeta_free-Returns s.1 b.1 p t (put_same h p _))
          (λ s' c. Returns-returns _ (At-heap (put_fresh h p _ new) c)))
  answered-Returns f r w (error_out n msg _ a) =
      Returns-chain _ _ (consume_err_msg-Returns w msg _ a) (λ s b. Returns-returns _ b)

module _ {e : Platform} {h : Heap} where
  pub list_tables-At :
      (p : Ptr) (w : World e Database)
      → IsOpen h p
      → At h (idle p) w
      → Returns (list_tables w) (λ r. At h (idle p) r.1)
  unfolding list_tables
  list_tables-At none w o a =
      critical-Returns _ (λ w' b. get_go-chain w' b _ (Returns-returns _ b)) w a
  list_tables-At (some d) w o a =
      critical-Returns _
        (λ w' b. get_go-chain w' b _ (
          Returns-chain _ _ (zeta_list_tables-Returns w' b d o)
            (λ r c. answered-Returns _ r.0 r.1 c)))
        w a

  pub table_info-At :
      (name : Bytes) (p : Ptr) (w : World e Database)
      → IsOpen h p
      → At h (idle p) w
      → Returns (table_info name w) (λ r. At h (idle p) r.1)
  unfolding table_info
  table_info-At name none w o a =
      critical-Returns _ (λ w' b. get_go-chain w' b _ (Returns-returns _ b)) w a
  table_info-At name (some d) w o a =
      critical-Returns _
        (λ w' b. get_go-chain w' b _ (
          Returns-chain _ _ (c_string_of-Returns w' b) (λ r (n, here, new, c). rw here (
            Returns-chain _ _
              (Returns-chain _ _ (zeta_table_info-Returns r.1 c d (ground (arith, o, new)) name)
                (λ r' k. answered-Returns _ r'.0 r'.1 k))
              (λ r' k.
                Returns-chain _ _ (free-Returns r'.1 k n (ground arith))
                  (λ s m. Returns-returns _ (At-heap (put_fresh h n _ new) m)))))))
        w a

-- From a database at rest, `ListTables` and `TableInfo` return, whatever the engine answers; the
-- text or the error string is freed, and the C objects, the handle and the mutex are what they were.
pub schema-restores :
    {e : Platform} (w : World e Database) (r : IsReady w) (name : Bytes)
    → Returns (list_tables w) (λ r'. At w.heap w.go r'.1)
      × Returns (table_info name w) (λ r'. At w.heap w.go r'.1)
schema-restores w r name =
    let a = IsReady-At w r in
    (
      Returns-mono _ (λ r'. At-go (sym a.go)) (list_tables-At w.go.handle w r.opened a),
      Returns-mono _ (λ r'. At-go (sym a.go)) (table_info-At name w.go.handle w r.opened a),
    )
