-- ===== src/Calculator/Expression/Call/Reader.antt =====
-- The accessors of `calculator::expression::call::Reader` in rust/src/schema/calculator_capnp.rs.
use capnproto_test.Base.{Bool, Command, not}
use capnproto_test.Layout.{Layout}
use capnproto_test.Struct.{Reader}
use capnproto_test.Interface.{Client, read_client}
use capnproto_test.Calculator.Expression.{expression}
use capnproto_test.Calculator.Expression.Call.{call}
use capnproto_test.Calculator.Function.Interface.{function}

module _ ⦃R : Layout⦄ where
  unfoldable pub get_function : Reader call → Command R.State R.Error (Client function)
  get_function r = read_client function (R.get_pointer_field r.reader 0)

  unfoldable pub get_params : Reader call → Command R.State R.Error (R.StructListReader expression)
  get_params r = R.get_struct_list expression (R.get_pointer_field r.reader 1)

  unfoldable pub has_params : Reader call → Bool
  has_params r = not (R.is_null (R.get_pointer_field r.reader 1))
