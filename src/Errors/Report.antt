-- ===== src/Errors/Report.antt =====
-- embedded/zeta.go: `consumeErrMsg`, `dbError` and `stmtError`, which make an `*Error`.
use zeta_go.Prelude.{Option, none, some, []}
use zeta_go.Prelude.Int.{ℤ}
use zeta_go.Machine.{Bytes, Ptr, Platform, M, pure, ◌>>=◌, ◌>>◌}
use zeta_go.Errors.Defs.{ErrorKind, GoError, zeta, error_kind_from_code}
use zeta_go.Capi.{go_string, zeta_free, zeta_errcode, zeta_errmsg, zeta_stmt_errmsg}

abbrev pub text_or_empty : Option Bytes → Bytes
text_or_empty none = []
text_or_empty (some m) = m

module _ {e : Platform} {G : Type 0} where
  unfoldable pub consume_err_msg : Ptr → ErrorKind → M e G GoError
  consume_err_msg none kind = pure (zeta (record { kind = kind; text = [] }))
  consume_err_msg (some p) kind = do
    m ← go_string (some p)
    zeta_free (some p)
    pure (zeta (record { kind = kind; text = m }))

  unfoldable pub db_error : Ptr → M e G GoError
  db_error handle = do
    code ← zeta_errcode handle
    msg ← zeta_errmsg handle
    pure (zeta (record { kind = error_kind_from_code code; text = msg }))

  unfoldable pub stmt_error : Ptr → ℤ → M e G GoError
  stmt_error stmt code = do
    msg ← zeta_stmt_errmsg stmt
    pure (zeta (record { kind = error_kind_from_code code; text = text_or_empty msg }))
