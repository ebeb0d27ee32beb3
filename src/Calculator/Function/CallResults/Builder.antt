-- ===== src/Calculator/Function/CallResults/Builder.antt =====
-- The accessors of `calculator::function::call_results::Builder` in rust/src/schema/calculator_capnp.rs.
use capnproto_test.Base.{ℕ}
use capnproto_test.Layout.{Layout}
use capnproto_test.Layout.Elements.{f64}
use capnproto_test.Struct.{Builder}
use capnproto_test.Calculator.Function.CallResults.{call_results}

module _ ⦃R : Layout⦄ where
  unfoldable pub get_value : Builder call_results → R.State → ℕ
  get_value b s = R.get_data_field_mut b.builder f64 0 s

  unfoldable pub set_value : Builder call_results → ℕ → R.State → R.State
  set_value b value s = R.set_data_field b.builder f64 0 value s
