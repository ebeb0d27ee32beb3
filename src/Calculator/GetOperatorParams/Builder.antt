-- ===== src/Calculator/GetOperatorParams/Builder.antt =====
-- The accessors of `calculator::get_operator_params::Builder` in rust/src/schema/calculator_capnp.rs.
use capnproto_test.Base.{InSchema}
use capnproto_test.Layout.{Layout}
use capnproto_test.Layout.Elements.{u16}
use capnproto_test.Struct.{Builder}
use capnproto_test.Calculator.GetOperatorParams.{get_operator_params}
use capnproto_test.Calculator.Operators.{Operator, from_u16, to_u16}

module _ ⦃R : Layout⦄ where
  unfoldable pub get_op : Builder get_operator_params → R.State → InSchema Operator
  get_op b s = from_u16 (R.get_data_field_mut b.builder u16 0 s)

  unfoldable pub set_op : Builder get_operator_params → Operator → R.State → R.State
  set_op b value s = R.set_data_field b.builder u16 0 (to_u16 value) s
