-- ===== src/Calculator/Function/Requests.antt =====
-- The requests of `calculator::function::Client` in rust/src/schema/calculator_capnp.rs.
use capnproto_test.Base.{none}
use capnproto_test.Layout.{Layout}
use capnproto_test.Layout.Rpc.{Rpc}
use capnproto_test.Interface.{Client}
use capnproto_test.Calculator.Function.Interface.{function}
use capnproto_test.Calculator.Function.CallParams.{call_params}
use capnproto_test.Calculator.Function.CallResults.{call_results}

module _ ⦃R : Layout⦄ ⦃rpc : Rpc⦄ where
  unfoldable pub call_request :
      Client function → R.State → rpc.Request call_params call_results × R.State
  call_request c = rpc.new_call call_params call_results c.client function.type_id 0 none
