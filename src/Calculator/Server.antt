-- ===== src/Calculator/Server.antt =====
-- The trait `calculator::Server` and its `ServerDispatch` in rust/src/schema/calculator_capnp.rs.
use Prim.Native.String.{String}
use capnproto_test.Base.{ℕ, ◌==◌, if◌then◌else◌}
use capnproto_test.Layout.{Layout}
use capnproto_test.Layout.Rpc.{Rpc}
use capnproto_test.Interface.{ServerDispatch}
use capnproto_test.Calculator.Interface.{calculator}
use capnproto_test.Calculator.DefFunctionParams.{def_function_params}
use capnproto_test.Calculator.DefFunctionResults.{def_function_results}
use capnproto_test.Calculator.EvaluateParams.{evaluate_params}
use capnproto_test.Calculator.EvaluateResults.{evaluate_results}
use capnproto_test.Calculator.GetOperatorParams.{get_operator_params}
use capnproto_test.Calculator.GetOperatorResults.{get_operator_results}

module _ ⦃R : Layout⦄ ⦃rpc : Rpc⦄ where
  -- A method changes the server, and sends what it answers through its results.
  abbrev pub Call : Type 0 → Type 0
  Call T = R.State → rpc.Promise × T × R.State

  abbrev pub refuse : {T : Type 0} → String → T → Call T
  refuse why server s = (rpc.promise_err (R.unimplemented why), server, s)

  pub record Server (T : Type 0) : Type 0 where
    pub evaluate : T → rpc.Params evaluate_params → rpc.Results evaluate_results → Call T
    pub def_function :
        T → rpc.Params def_function_params → rpc.Results def_function_results → Call T
    pub get_operator :
        T → rpc.Params get_operator_params → rpc.Results get_operator_results → Call T

  -- The bodies that the trait gives.
  abbrev pub default_server : (T : Type 0) → Server T
  default_server T = record {
    evaluate = λ server _ _. refuse "method not implemented" server;
    def_function = λ server _ _. refuse "method not implemented" server;
    get_operator = λ server _ _. refuse "method not implemented" server;
  }

  unfoldable pub dispatch_call_internal :
      {T : Type 0} → Server T → T → ℕ → rpc.AnyParams → rpc.AnyResults → Call T
  dispatch_call_internal methods server method_id params results =
      if method_id == 0
      then methods.evaluate server (rpc.typed_params evaluate_params params)
          (rpc.typed_results evaluate_results results)
      else if method_id == 1
      then methods.def_function server (rpc.typed_params def_function_params params)
          (rpc.typed_results def_function_results results)
      else if method_id == 2
      then methods.get_operator server (rpc.typed_params get_operator_params params)
          (rpc.typed_results get_operator_results results)
      else refuse "Method not implemented." server

  unfoldable pub dispatch_call :
      {T : Type 0} → Server T → ServerDispatch T → ℕ → ℕ → rpc.AnyParams → rpc.AnyResults → Call T
  unfolding dispatch_call_internal
  dispatch_call methods dispatch interface_id method_id params results =
      if interface_id == calculator.type_id
      then dispatch_call_internal methods dispatch.server method_id params results
      else refuse "Method not implemented." dispatch.server
