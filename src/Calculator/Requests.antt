-- ===== src/Calculator/Requests.antt =====
-- The requests of `calculator::Client` in rust/src/schema/calculator_capnp.rs.
use capnproto_test.Base.{none}
use capnproto_test.Layout.{Layout}
use capnproto_test.Layout.Rpc.{Rpc}
use capnproto_test.Interface.{Client}
use capnproto_test.Calculator.Interface.{calculator}
use capnproto_test.Calculator.DefFunctionParams.{def_function_params}
use capnproto_test.Calculator.DefFunctionResults.{def_function_results}
use capnproto_test.Calculator.EvaluateParams.{evaluate_params}
use capnproto_test.Calculator.EvaluateResults.{evaluate_results}
use capnproto_test.Calculator.GetOperatorParams.{get_operator_params}
use capnproto_test.Calculator.GetOperatorResults.{get_operator_results}

module _ ⦃R : Layout⦄ ⦃rpc : Rpc⦄ where
  unfoldable pub evaluate_request :
      Client calculator → R.State → rpc.Request evaluate_params evaluate_results × R.State
  evaluate_request c =
      rpc.new_call evaluate_params evaluate_results c.client calculator.type_id 0 none

  unfoldable pub def_function_request :
      Client calculator → R.State → rpc.Request def_function_params def_function_results × R.State
  def_function_request c =
      rpc.new_call def_function_params def_function_results c.client calculator.type_id 1 none

  unfoldable pub get_operator_request :
      Client calculator → R.State → rpc.Request get_operator_params get_operator_results × R.State
  get_operator_request c =
      rpc.new_call get_operator_params get_operator_results c.client calculator.type_id 2 none
