-- ===== src/Calculator/EvaluateResults/Reader.antt =====
-- The accessors of `calculator::evaluate_results::Reader` in rust/src/schema/calculator_capnp.rs.
use capnproto_test.Base.{Command}
use capnproto_test.Layout.{Layout}
use capnproto_test.Struct.{Reader}
use capnproto_test.Interface.{Client, read_client}
use capnproto_test.Calculator.EvaluateResults.{evaluate_results}
use capnproto_test.Calculator.Value.Interface.{value}

module _ ⦃R : Layout⦄ where
  unfoldable pub get_value : Reader evaluate_results → Command R.State R.Error (Client value)
  get_value r = read_client value (R.get_pointer_field r.reader 0)
