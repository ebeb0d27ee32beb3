-- ===== src/Calculator/Expression/Call/Builder.antt =====
-- The accessors of `calculator::expression::call::Builder` in rust/src/schema/calculator_capnp.rs.
use capnproto_test.Base.{Bool, Command, false, not, ℕ}
use capnproto_test.Layout.{Layout}
use capnproto_test.Struct.{Builder}
use capnproto_test.Interface.{Client, read_client_mut}
use capnproto_test.Calculator.Expression.{expression}
use capnproto_test.Calculator.Expression.Call.{call}
use capnproto_test.Calculator.Function.Interface.{function}

module _ ⦃R : Layout⦄ where
  unfoldable pub get_function : Builder call → Command R.State R.Error (Client function)
  get_function b = read_client_mut function (R.get_pointer_field_mut b.builder 0)

  unfoldable pub set_function : Builder call → Client function → R.State → R.State
  set_function b value s =
      R.set_capability (R.get_pointer_field_mut b.builder 0) (R.hook value.client) s

  unfoldable pub get_params :
      Builder call → Command R.State R.Error (R.StructListBuilder expression)
  get_params b = R.get_struct_list_mut expression (R.get_pointer_field_mut b.builder 1)

  unfoldable pub set_params :
      Builder call → R.StructListReader expression → Command R.State R.Error (Unit {0})
  set_params b value =
      R.set_struct_list expression (R.get_pointer_field_mut b.builder 1) value false

  unfoldable pub init_params : Builder call → ℕ → R.State → R.StructListBuilder expression × R.State
  init_params b size s = R.init_struct_list expression (R.get_pointer_field_mut b.builder 1) size s

  unfoldable pub has_params : Builder call → R.State → Bool
  has_params b s = not (R.is_null_mut (R.get_pointer_field_mut b.builder 1) s)
