-- ===== src/Calculator/EvaluateParams/Builder.antt =====
-- The accessors of `calculator::evaluate_params::Builder` in rust/src/schema/calculator_capnp.rs.
use capnproto_test.Base.{Bool, Command, false, not}
use capnproto_test.Layout.{Layout}
use capnproto_test.Struct.{Builder, Reader}
use capnproto_test.Calculator.Expression
use capnproto_test.Calculator.EvaluateParams.{evaluate_params}
use capnproto_test.Calculator.Expression.{expression}

module _ ⦃R : Layout⦄ where
  unfoldable pub get_expression :
      Builder evaluate_params → Command R.State R.Error (Builder expression)
  get_expression b = Expression.builder_impls.get_from_pointer (R.get_pointer_field_mut b.builder 0)

  unfoldable pub set_expression :
      Builder evaluate_params → Reader expression → Command R.State R.Error (Unit {0})
  set_expression b value =
      Expression.builder_impls.set_pointer_builder (R.get_pointer_field_mut b.builder 0) value false

  unfoldable pub init_expression : Builder evaluate_params → R.State → Builder expression × R.State
  init_expression b s =
      Expression.builder_impls.init_pointer (R.get_pointer_field_mut b.builder 0) 0 s

  unfoldable pub has_expression : Builder evaluate_params → R.State → Bool
  has_expression b s = not (R.is_null_mut (R.get_pointer_field_mut b.builder 0) s)
