-- ===== src/Calculator/GetOperatorResults/Reader.antt =====
-- The accessors of `calculator::get_operator_results::Reader` in rust/src/schema/calculator_capnp.rs.
use capnproto_test.Base.{Command}
use capnproto_test.Layout.{Layout}
use capnproto_test.Struct.{Reader}
use capnproto_test.Interface.{Client, read_client}
use capnproto_test.Calculator.Function.Interface.{function}
use capnproto_test.Calculator.GetOperatorResults.{get_operator_results}

module _ ⦃R : Layout⦄ where
  unfoldable pub get_func : Reader get_operator_results → Command R.State R.Error (Client function)
  get_func r = read_client function (R.get_pointer_field r.reader 0)
