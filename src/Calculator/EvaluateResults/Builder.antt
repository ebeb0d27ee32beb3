-- ===== src/Calculator/EvaluateResults/Builder.antt =====
-- The accessors of `calculator::evaluate_results::Builder` in rust/src/schema/calculator_capnp.rs.
use capnproto_test.Base.{Command}
use capnproto_test.Layout.{Layout}
use capnproto_test.Struct.{Builder}
use capnproto_test.Interface.{Client, read_client_mut}
use capnproto_test.Calculator.EvaluateResults.{evaluate_results}
use capnproto_test.Calculator.Value.Interface.{value}

module _ ⦃R : Layout⦄ where
  unfoldable pub get_value : Builder evaluate_results → Command R.State R.Error (Client value)
  get_value b = read_client_mut value (R.get_pointer_field_mut b.builder 0)

  unfoldable pub set_value : Builder evaluate_results → Client value → R.State → R.State
  set_value b value s =
      R.set_capability (R.get_pointer_field_mut b.builder 0) (R.hook value.client) s
