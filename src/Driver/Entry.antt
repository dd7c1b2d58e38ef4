-- ===== src/Driver/Entry.antt =====
-- embedded/driver.go: what database/sql asks of the driver beside connections and statements.
use zeta_go.Prelude.Int.{ℤ, negsuc}
use zeta_go.Machine.{Bytes, Platform, M}
use zeta_go.Errors.{codes, no_last_insert_id, Result, ok, err}
use zeta_go.Params.{go_floats}
use zeta_go.Driver.Values.{DriverValue, plain, NamedValue}
use zeta_go.Driver.Conn.{Conn, open_conn}
use zeta_go.Driver.Stmt.{Stmt}

-- `DriverName`
abbrev driver_name : Bytes
driver_name = codes "zeta"

pub record Connector : Type 0 where
  pub dsn : Bytes

-- `Driver.OpenConnector`
abbrev pub open_connector : Bytes → Result Connector
open_connector dsn = ok (record { dsn = dsn })

module _ {e : Platform} {G : Type 0} where
  -- `Driver.Open`
  unfoldable pub open_driver : Bytes → M e G (Result Conn)
  open_driver dsn = open_conn dsn

  -- `connector.Connect`
  unfoldable pub connect : Connector → M e G (Result Conn)
  connect c = open_conn c.dsn

-- What database/sql does with an argument: it is taken as it is, or the standard converter has it.
pub data ArgumentCheck : Type 0 where
  taken skipped : ArgumentCheck

abbrev check_value : {e : Platform} → DriverValue e → ArgumentCheck
check_value (plain (go_floats v)) = taken
check_value _ = skipped

-- `(*stmt).CheckNamedValue`
abbrev check_named_value : {e : Platform} → NamedValue e → ArgumentCheck
check_named_value nv = check_value nv.value

-- `(*stmt).NumInput`
abbrev num_input : Stmt → ℤ
num_input s = negsuc 0

-- `result`
pub record ExecResult : Type 0 where
  pub affected : ℤ

abbrev last_insert_id : ExecResult → Result ℤ
last_insert_id r = err no_last_insert_id

abbrev rows_affected : ExecResult → Result ℤ
rows_affected r = ok r.affected
