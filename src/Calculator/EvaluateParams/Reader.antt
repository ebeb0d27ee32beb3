-- ===== src/Calculator/EvaluateParams/Reader.antt =====
-- The accessors of `calculator::evaluate_params::Reader` in rust/src/schema/calculator_capnp.rs.
use capnproto_test.Base.{Bool, Command, not}
use capnproto_test.Layout.{Layout}
use capnproto_test.Struct.{Reader}
use capnproto_test.Calculator.Expression
use capnproto_test.Calculator.EvaluateParams.{evaluate_params}
use capnproto_test.Calculator.Expression.{expression}

module _ ⦃R : Layout⦄ where
  unfoldable pub get_expression :
      Reader evaluate_params → Command R.State R.Error (Reader expression)
  get_expression r = Expression.reader_impls.get_from_pointer (R.get_pointer_field r.reader 0)

  unfoldable pub has_expression : Reader evaluate_params → Bool
  has_expression r = not (R.is_null (R.get_pointer_field r.reader 0))
