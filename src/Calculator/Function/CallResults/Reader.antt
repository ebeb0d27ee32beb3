-- ===== src/Calculator/Function/CallResults/Reader.antt =====
-- The accessors of `calculator::function::call_results::Reader` in rust/src/schema/calculator_capnp.rs.
use capnproto_test.Base.{ℕ}
use capnproto_test.Layout.{Layout}
use capnproto_test.Layout.Elements.{f64}
use capnproto_test.Struct.{Reader}
use capnproto_test.Calculator.Function.CallResults.{call_results}

module _ ⦃R : Layout⦄ where
  unfoldable pub get_value : Reader call_results → ℕ
  get_value r = R.get_data_field r.reader f64 0
