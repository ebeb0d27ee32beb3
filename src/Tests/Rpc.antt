-- ===== src/Tests/Rpc.antt =====
-- The requests and the dispatch on a concrete RPC layer.
use capnproto_test.Base.{ℕ, suc, ◌+◌, ◌<◌, ◌≡◌, refl, ◌≢◌, ◌↔◌, arith}
use Prim.Native.String.{String}
use capnproto_test.Layout.Rpc.{Rpc, Ids, IsRouting}
use capnproto_test.Layout.Memory.{Failure, unimplemented, empty}
use capnproto_test.Layout.Memory.Instance.{memory_layout}
use capnproto_test.Interface.{ServerDispatch}
use capnproto_test.Calculator.Interface.{calculator}
use capnproto_test.Calculator.Value.Interface.{value}
use capnproto_test.Calculator.Requests as CalculatorRequests
use capnproto_test.Calculator.Server as CalculatorServer
use capnproto_test.Calculator.Value.Requests as ValueRequests
use capnproto_test.Calculator.Value.Server as ValueServer
use capnproto_test.Calculator.Function.Interface.{function}
use capnproto_test.Calculator.Function.Requests as FunctionRequests
use capnproto_test.Calculator.Function.Server as FunctionServer
use capnproto_test.Calculator.Routing.{
  dispatch_call-called_iff, default_server-err, dispatch_call-request,
}

-- A request is the ids that it carries.
pub record Envelope : Type 0 where
  pub interface : ℕ
  pub method : ℕ
  pub receiver : ℕ

-- The answer of a method.
pub data Answer : Type 0 where
  fulfilled : ℕ → Answer
  rejected : Failure → Answer

instance abbrev pub memory_rpc : Rpc
memory_rpc = record {
  Request = λ p q. Envelope;
  new_call = λ p q c i m size s. (record { interface = i; method = m; receiver = c }, s);
  AnyParams = ℕ;
  AnyResults = ℕ;
  Params = λ o. ℕ;
  Results = λ o. ℕ;
  typed_params = λ o p. p;
  typed_results = λ o r. r;
  Promise = Answer;
  promise_err = rejected;
}

abbrev pub envelope_ids : Ids memory_rpc
envelope_ids = record { interface_id = λ r. r.interface; method_id = λ r. r.method }

pub envelope_ids-IsRouting : IsRouting memory_rpc envelope_ids
envelope_ids-IsRouting = record {
  interface_id-new_call = λ p q c i m size s. refl;
  method_id-new_call = λ p q c i m size s. refl;
}

-- Servers that count their calls, and answer with the number of the method and of its parameters.
abbrev calculators : CalculatorServer.Server ℕ
calculators = record {
  evaluate = λ n p r s. (fulfilled p, suc n, s);
  def_function = λ n p r s. (fulfilled (10 + p), suc n, s);
  get_operator = λ n p r s. (fulfilled (20 + p), suc n, s);
}

abbrev value_servers : ValueServer.Server ℕ
value_servers = record { read = λ n p r s. (fulfilled (30 + p), suc n, s) }

abbrev function_servers : FunctionServer.Server ℕ
function_servers = record { call = λ n p r s. (fulfilled (40 + p), suc n, s) }

abbrev counting : ServerDispatch ℕ
counting = record { server = 0 }

suc-ne_self : (n p r : ℕ) → suc n ≢ n
suc-ne_self n p r = omega arith

dispatch_call-called_iff_example :
    (((CalculatorServer.dispatch_call calculators counting calculator.type_id 2 1 2 empty).1 ≢ 0)
      ↔ ((calculator.type_id ≡ calculator.type_id) × (2 < 3)))
    × (((ValueServer.dispatch_call value_servers counting calculator.type_id 2 1 2 empty).1 ≢ 0)
        ↔ ((calculator.type_id ≡ value.type_id) × (2 < 1)))
    × (((FunctionServer.dispatch_call function_servers counting calculator.type_id 2 1 2 empty).1
          ≢ 0)
        ↔ ((calculator.type_id ≡ function.type_id) × (2 < 1)))
dispatch_call-called_iff_example =
    dispatch_call-called_iff counting 1 2 calculators value_servers function_servers
      calculator.type_id 2 empty suc-ne_self suc-ne_self suc-ne_self suc-ne_self suc-ne_self

default_server-err_example :
    let c =
      CalculatorServer.dispatch_call
        (CalculatorServer.default_server ℕ)
        counting
        calculator.type_id
        0
        1
        2
        empty in
    let v =
      ValueServer.dispatch_call
        (ValueServer.default_server ℕ)
        counting
        calculator.type_id
        0
        1
        2
        empty in
    let f =
      FunctionServer.dispatch_call
        (FunctionServer.default_server ℕ)
        counting
        calculator.type_id
        0
        1
        2
        empty in
    ((why : String) × (c ≡ (rejected (unimplemented why), 0, empty)))
    × ((why : String) × (v ≡ (rejected (unimplemented why), 0, empty)))
    × ((why : String) × (f ≡ (rejected (unimplemented why), 0, empty)))
default_server-err_example = default_server-err counting 1 2 calculator.type_id 0 empty

dispatch_call-request_example :
    let evaluate = (CalculatorRequests.evaluate_request (record { client = 1 }) empty).0 in
    let define = (CalculatorRequests.def_function_request (record { client = 1 }) empty).0 in
    let operator = (CalculatorRequests.get_operator_request (record { client = 1 }) empty).0 in
    let read = (ValueRequests.read_request (record { client = 2 }) empty).0 in
    let call = (FunctionRequests.call_request (record { client = 3 }) empty).0 in
    (CalculatorServer.dispatch_call calculators counting evaluate.interface evaluate.method 5 6
      ≡ calculators.evaluate 0 5 6)
    × (CalculatorServer.dispatch_call calculators counting define.interface define.method 5 6
        ≡ calculators.def_function 0 5 6)
    × (CalculatorServer.dispatch_call calculators counting operator.interface operator.method 5 6
        ≡ calculators.get_operator 0 5 6)
    × (ValueServer.dispatch_call value_servers counting read.interface read.method 5 6
        ≡ value_servers.read 0 5 6)
    × (FunctionServer.dispatch_call function_servers counting call.interface call.method 5 6
        ≡ function_servers.call 0 5 6)
dispatch_call-request_example =
    dispatch_call-request counting 5 6 envelope_ids-IsRouting empty calculators value_servers
      function_servers (record { client = 1 }) (record { client = 2 }) (record { client = 3 })
