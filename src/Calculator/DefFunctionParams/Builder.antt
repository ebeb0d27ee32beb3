-- ===== src/Calculator/DefFunctionParams/Builder.antt =====
-- The accessors of `calculator::def_function_params::Builder` in rust/src/schema/calculator_capnp.rs.
use capnproto_test.Base.{Bool, Command, false, not, ℕ}
use capnproto_test.Layout.{Layout}
use capnproto_test.Layout.Elements.{i32}
use capnproto_test.Struct.{Builder, Reader}
use capnproto_test.Calculator.Expression
use capnproto_test.Calculator.DefFunctionParams.{def_function_params}
use capnproto_test.Calculator.Expression.{expression}

module _ ⦃R : Layout⦄ where
  unfoldable pub get_param_count : Builder def_function_params → R.State → ℕ
  get_param_count b s = R.get_data_field_mut b.builder i32 0 s

  unfoldable pub set_param_count : Builder def_function_params → ℕ → R.State → R.State
  set_param_count b value s = R.set_data_field b.builder i32 0 value s

  unfoldable pub get_body :
      Builder def_function_params → Command R.State R.Error (Builder expression)
  get_body b = Expression.builder_impls.get_from_pointer (R.get_pointer_field_mut b.builder 0)

  unfoldable pub set_body :
      Builder def_function_params → Reader expression → Command R.State R.Error (Unit {0})
  set_body b value =
      Expression.builder_impls.set_pointer_builder (R.get_pointer_field_mut b.builder 0) value false

  unfoldable pub init_body : Builder def_function_params → R.State → Builder expression × R.State
  init_body b s = Expression.builder_impls.init_pointer (R.get_pointer_field_mut b.builder 0) 0 s

  unfoldable pub has_body : Builder def_function_params → R.State → Bool
  has_body b s = not (R.is_null_mut (R.get_pointer_field_mut b.builder 0) s)
