-- ===== src/Calculator/DefFunctionParams/Reader.antt =====
-- The accessors of `calculator::def_function_params::Reader` in rust/src/schema/calculator_capnp.rs.
use capnproto_test.Base.{Bool, Command, not, ℕ}
use capnproto_test.Layout.{Layout}
use capnproto_test.Layout.Elements.{i32}
use capnproto_test.Struct.{Reader}
use capnproto_test.Calculator.Expression
use capnproto_test.Calculator.DefFunctionParams.{def_function_params}
use capnproto_test.Calculator.Expression.{expression}

module _ ⦃R : Layout⦄ where
  unfoldable pub get_param_count : Reader def_function_params → ℕ
  get_param_count r = R.get_data_field r.reader i32 0

  unfoldable pub get_body : Reader def_function_params → Command R.State R.Error (Reader expression)
  get_body r = Expression.reader_impls.get_from_pointer (R.get_pointer_field r.reader 0)

  unfoldable pub has_body : Reader def_function_params → Bool
  has_body r = not (R.is_null (R.get_pointer_field r.reader 0))
