-- ===== src/Calculator/GetOperatorParams/Reader.antt =====
-- The accessors of `calculator::get_operator_params::Reader` in rust/src/schema/calculator_capnp.rs.
use capnproto_test.Base.{InSchema}
use capnproto_test.Layout.{Layout}
use capnproto_test.Layout.Elements.{u16}
use capnproto_test.Struct.{Reader}
use capnproto_test.Calculator.GetOperatorParams.{get_operator_params}
use capnproto_test.Calculator.Operators.{Operator, from_u16}

module _ ⦃R : Layout⦄ where
  unfoldable pub get_op : Reader get_operator_params → InSchema Operator
  get_op r = from_u16 (R.get_data_field r.reader u16 0)
