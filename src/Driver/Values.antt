-- ===== src/Driver/Values.antt =====
-- embedded/driver.go: the arguments of a statement, from database/sql to `bindParams`.
pub mod Positional
use zeta_go.Prelude.{List, [], ◌∷◌, map}
use zeta_go.Machine.{Bytes, Ptr, Platform, M}
use zeta_go.Errors.{named_parameter, Result, ok, err}
use zeta_go.Params.{Param, go_string, bind_params}
use zeta_go.Columns.{Time}
use zeta_go.Driver.Timestamp.{format}

-- A driver.Value: a time, or what `bindOne` sees as it is.
pub data DriverValue (e : Platform) : Type 0 where
  time : Time → DriverValue e
  plain : Param e → DriverValue e

pub record NamedValue (e : Platform) : Type 0 where
  pub name : Bytes
  pub value : DriverValue e

module _ {e : Platform} where
  abbrev cons_ok : DriverValue e → Result (List (DriverValue e)) → Result (List (DriverValue e))
  cons_ok v (ok vs) = ok (v ∷ vs)
  cons_ok v (err x) = err x

  -- Whether the argument is positional.
  abbrev positional :
      Bytes → DriverValue e → Result (List (DriverValue e)) → Result (List (DriverValue e))
  positional [] v rest = cons_ok v rest
  positional (c ∷ s) v rest = err named_parameter

  -- `namedToValues`
  unfoldable pub named_to_values : List (NamedValue e) → Result (List (DriverValue e))
  named_to_values [] = ok []
  named_to_values (nv ∷ nvs) = positional nv.name nv.value (named_to_values nvs)

  unfoldable pub convert : DriverValue e → Param e
  convert (time t) = go_string (format t)
  convert (plain p) = p

module _ {e : Platform} {G : Type 0} where
  -- `bindValues`
  unfoldable pub bind_values : Ptr → List (DriverValue e) → M e G (Result (Unit {0}))
  bind_values stmt args = bind_params stmt (map convert args)
