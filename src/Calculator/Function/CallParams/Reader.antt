-- ===== src/Calculator/Function/CallParams/Reader.antt =====
-- The accessors of `calculator::function::call_params::Reader` in rust/src/schema/calculator_capnp.rs.
use capnproto_test.Base.{Bool, Command, not}
use capnproto_test.Layout.{Layout}
use capnproto_test.Layout.Elements.{f64}
use capnproto_test.Struct.{Reader}
use capnproto_test.Calculator.Function.CallParams.{call_params}

module _ ⦃R : Layout⦄ where
  unfoldable pub get_params :
      Reader call_params → Command R.State R.Error (R.PrimitiveListReader f64)
  get_params r = R.get_primitive_list f64 (R.get_pointer_field r.reader 0)

  unfoldable pub has_params : Reader call_params → Bool
  has_params r = not (R.is_null (R.get_pointer_field r.reader 0))
