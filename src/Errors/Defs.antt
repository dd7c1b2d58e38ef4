-- ===== src/Errors/Defs.antt =====
-- embedded/error.go, and the errors of the package: the sentinels, `*Error`, and one constructor
-- for each `errors.New` or `fmt.Errorf` of the code.
use Prim.Native.Char.{code}
use Prim.Native.String.{String}
use zeta_go.Prelude.{ℕ, zero, suc, [], ◌∷◌, ◌++◌}
use zeta_go.Prelude.Int.{ℤ, negsuc}
use zeta_go.Machine.{Bytes}

-- The bytes of an ASCII text.
abbrev pub codes : String → Bytes
codes String.[] = []
codes (String.◌∷◌ c s) = code c ∷ codes s

pub data ErrorKind : Type 0 where
  unknown parse type_mismatch constraint conflict not_found storage : ErrorKind

-- `func (k ErrorKind) String`
unfoldable pub string : ErrorKind → Bytes
string parse = codes "parse error"
string type_mismatch = codes "type mismatch"
string constraint = codes "constraint violation"
string conflict = codes "serialization conflict"
string not_found = codes "not found"
string storage = codes "storage error"
string unknown = codes "unknown error"

pub record ZetaError : Type 0 where
  pub kind : ErrorKind
  pub text : Bytes

-- `func (e *Error) Error`
error_text : ErrorKind → Bytes → Bytes
error_text k [] = codes "zeta: " ++ string k
error_text k (c ∷ m) = codes "zeta: " ++ string k ++ codes ": " ++ c ∷ m

unfoldable pub error : ZetaError → Bytes
unfolding error_text
error e = error_text e.kind e.text

-- `errorKindFromCode`; `negsuc n` is the code -(n + 1).
unfoldable pub error_kind_from_code : ℤ → ErrorKind
error_kind_from_code (negsuc zero) = parse
error_kind_from_code (negsuc (suc zero)) = type_mismatch
error_kind_from_code (negsuc (suc (suc zero))) = constraint
error_kind_from_code (negsuc (suc (suc (suc zero)))) = conflict
error_kind_from_code (negsuc (suc (suc (suc (suc zero))))) = not_found
error_kind_from_code (negsuc (suc (suc (suc (suc (suc zero)))))) = storage
error_kind_from_code _ = unknown

pub data GoError : Type 0 where
  -- ErrClosed, ErrTxDone, ErrNoRow, io.EOF
  closed tx_done no_row eof : GoError
  -- `*Error`
  zeta : ZetaError → GoError
  -- `ctx.Err()` of a context that has ended
  context_ended : GoError
  stmt_closed nested_transaction named_parameter no_last_insert_id : GoError
  bad_isolation : ℤ → GoError
  bind_parameter : ℕ → GoError → GoError
  uint_exceeds uint64_exceeds : ℕ → GoError
  unsupported_parameter unsupported_destination : Bytes → GoError
  destinations : ℤ → ℕ → GoError
  column : ℕ → GoError → GoError
  not_temporal : ℤ → GoError

-- `(value, error)`
pub data Result (A : Type 0) : Type 0 where
  ok : A → Result A
  err : GoError → Result A
