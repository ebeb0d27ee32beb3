-- ===== src/Calculator/Routing.antt =====
-- Requests of the generated clients against the dispatch of the generated servers.
use Prim.Native.String.{String}
use capnproto_test.Base.{◌<◌, ◌↔◌, ℕ, ◌≡◌, ◌≢◌, ltb, ◌==◌, if◌then◌else◌, arith}
use capnproto_test.Layout.{Layout}
use capnproto_test.Layout.Rpc.{Rpc, Ids, IsRouting}
use capnproto_test.Interface.{ServerDispatch, Client}
use capnproto_test.Calculator.Interface.{calculator}
use capnproto_test.Calculator.Requests as CalculatorRequests
use capnproto_test.Calculator.Server as CalculatorServer
use capnproto_test.Calculator.Value.Interface.{value}
use capnproto_test.Calculator.Value.Requests as ValueRequests
use capnproto_test.Calculator.Value.Server as ValueServer
use capnproto_test.Calculator.Function.Interface.{function}
use capnproto_test.Calculator.Function.Requests as FunctionRequests
use capnproto_test.Calculator.Function.Server as FunctionServer
use capnproto_test.Calculator.EvaluateParams.{evaluate_params}
use capnproto_test.Calculator.EvaluateResults.{evaluate_results}
use capnproto_test.Calculator.DefFunctionParams.{def_function_params}
use capnproto_test.Calculator.DefFunctionResults.{def_function_results}
use capnproto_test.Calculator.GetOperatorParams.{get_operator_params}
use capnproto_test.Calculator.GetOperatorResults.{get_operator_results}
use capnproto_test.Calculator.Value.ReadParams.{read_params}
use capnproto_test.Calculator.Value.ReadResults.{read_results}
use capnproto_test.Calculator.Function.CallParams.{call_params}
use capnproto_test.Calculator.Function.CallResults.{call_results}

module _ ⦃R : Layout⦄ ⦃rpc : Rpc⦄ {T : Type 0} (d : ServerDispatch T) (params : rpc.AnyParams)
    (results : rpc.AnyResults) where
  -- Where each method of three servers changes its server, a dispatched call changes the server of
  -- `calculator`, `value` or `function` exactly when it names that interface and a method number below
  -- 3, 1 or 1; a call for anything else leaves the server as it was.
  pub dispatch_call-called_iff :
      (calculators : CalculatorServer.Server T) (values : ValueServer.Server T)
      (functions : FunctionServer.Server T) (i m : ℕ) (s : R.State)
      → ((n : T) (p : rpc.Params evaluate_params) (r : rpc.Results evaluate_results)
          → (calculators.evaluate n p r s).1 ≢ n)
      → ((n : T) (p : rpc.Params def_function_params) (r : rpc.Results def_function_results)
          → (calculators.def_function n p r s).1 ≢ n)
      → ((n : T) (p : rpc.Params get_operator_params) (r : rpc.Results get_operator_results)
          → (calculators.get_operator n p r s).1 ≢ n)
      → ((n : T) (p : rpc.Params read_params) (r : rpc.Results read_results)
          → (values.read n p r s).1 ≢ n)
      → ((n : T) (p : rpc.Params call_params) (r : rpc.Results call_results)
          → (functions.call n p r s).1 ≢ n)
      → (((CalculatorServer.dispatch_call calculators d i m params results s).1 ≢ d.server)
          ↔ ((i ≡ calculator.type_id) × (m < 3)))
        × (((ValueServer.dispatch_call values d i m params results s).1 ≢ d.server)
            ↔ ((i ≡ value.type_id) × (m < 1)))
        × (((FunctionServer.dispatch_call functions d i m params results s).1 ≢ d.server)
            ↔ ((i ≡ function.type_id) × (m < 1)))
  unfolding CalculatorServer.dispatch_call ValueServer.dispatch_call FunctionServer.dispatch_call
  dispatch_call-called_iff calculators values functions i m s evaluates defines gets reads calls =
      let n = d.server in
      let ne0 =
        evaluates n (rpc.typed_params evaluate_params params)
          (rpc.typed_results evaluate_results results) in
      let ne1 =
        defines n (rpc.typed_params def_function_params params)
          (rpc.typed_results def_function_results results) in
      let ne2 =
        gets n (rpc.typed_params get_operator_params params)
          (rpc.typed_results get_operator_results results) in
      let ne3 =
        reads n (rpc.typed_params read_params params) (rpc.typed_results read_results results) in
      let ne4 =
        calls n (rpc.typed_params call_params params) (rpc.typed_results call_results results) in
      (
        (λ changed. ground arith, λ (e, small). ground (arith, ne0, ne1, ne2)),
        (λ changed. ground arith, λ (e, small). ground (arith, ne3)),
        (λ changed. ground arith, λ (e, small). ground (arith, ne4)),
      )

  -- Servers of the three interfaces with only the methods that the traits give answer every call by an
  -- unimplemented error, and neither they nor the state change.
  pub default_server-err :
      (i m : ℕ) (s : R.State)
      → let c =
          CalculatorServer.dispatch_call
            (CalculatorServer.default_server T)
            d
            i
            m
            params
            results
            s in
        let v = ValueServer.dispatch_call (ValueServer.default_server T) d i m params results s in
        let f =
          FunctionServer.dispatch_call (FunctionServer.default_server T) d i m params results s in
        ((why : String) × (c ≡ (rpc.promise_err (R.unimplemented why), d.server, s)))
        × ((why : String) × (v ≡ (rpc.promise_err (R.unimplemented why), d.server, s)))
        × ((why : String) × (f ≡ (rpc.promise_err (R.unimplemented why), d.server, s)))
  unfolding CalculatorServer.dispatch_call ValueServer.dispatch_call FunctionServer.dispatch_call
  default_server-err i m s = (
    (
      if i == calculator.type_id
          then (if ltb m 3 then "method not implemented" else "Method not implemented.")
          else "Method not implemented.",
      ground arith,
    ),
    (
      if i == value.type_id
          then (if ltb m 1 then "method not implemented" else "Method not implemented.")
          else "Method not implemented.",
      ground arith,
    ),
    (
      if i == function.type_id
          then (if ltb m 1 then "method not implemented" else "Method not implemented.")
          else "Method not implemented.",
      ground arith,
    ),
  )

  module _ {ids : Ids rpc} (routing : IsRouting rpc ids) (s : R.State) where
    -- Where requests carry the ids that `new_call` was given, each of the five requests of the
    -- clients, dispatched by a server of its interface, is the call of the method of its name with the
    -- typed parameters and results.
    pub dispatch_call-request :
        (calculators : CalculatorServer.Server T) (values : ValueServer.Server T)
        (functions : FunctionServer.Server T) (c : Client calculator) (v : Client value)
        (f : Client function)
        → let evaluate = (CalculatorRequests.evaluate_request c s).0 in
          let define = (CalculatorRequests.def_function_request c s).0 in
          let operator = (CalculatorRequests.get_operator_request c s).0 in
          let read = (ValueRequests.read_request v s).0 in
          let call = (FunctionRequests.call_request f s).0 in
          (CalculatorServer.dispatch_call calculators d
              (ids.interface_id evaluate)
              (ids.method_id evaluate)
              params
              results
            ≡ calculators.evaluate d.server
                (rpc.typed_params evaluate_params params)
                (rpc.typed_results evaluate_results results))
          × (CalculatorServer.dispatch_call calculators d
                (ids.interface_id define)
                (ids.method_id define)
                params
                results
              ≡ calculators.def_function d.server
                  (rpc.typed_params def_function_params params)
                  (rpc.typed_results def_function_results results))
          × (CalculatorServer.dispatch_call calculators d
                (ids.interface_id operator)
                (ids.method_id operator)
                params
                results
              ≡ calculators.get_operator d.server
                  (rpc.typed_params get_operator_params params)
                  (rpc.typed_results get_operator_results results))
          × (ValueServer.dispatch_call values d
                (ids.interface_id read)
                (ids.method_id read)
                params
                results
              ≡ values.read d.server
                  (rpc.typed_params read_params params)
                  (rpc.typed_results read_results results))
          × (FunctionServer.dispatch_call functions d
                (ids.interface_id call)
                (ids.method_id call)
                params
                results
              ≡ functions.call d.server
                  (rpc.typed_params call_params params)
                  (rpc.typed_results call_results results))
    unfolding CalculatorServer.dispatch_call ValueServer.dispatch_call FunctionServer.dispatch_call
        CalculatorRequests.evaluate_request CalculatorRequests.def_function_request
        CalculatorRequests.get_operator_request ValueRequests.read_request
        FunctionRequests.call_request
    dispatch_call-request calculators values functions c v f = (
      rw (routing.interface_id-new_call, routing.method_id-new_call),
      rw (routing.interface_id-new_call, routing.method_id-new_call),
      rw (routing.interface_id-new_call, routing.method_id-new_call),
      rw (routing.interface_id-new_call, routing.method_id-new_call),
      rw (routing.interface_id-new_call, routing.method_id-new_call),
    )
