-- ===== src/Calculator/Value/Requests.antt =====
-- The requests of `calculator::value::Client` in rust/src/schema/calculator_capnp.rs.
use capnproto_test.Base.{none}
use capnproto_test.Layout.{Layout}
use capnproto_test.Layout.Rpc.{Rpc}
use capnproto_test.Interface.{Client}
use capnproto_test.Calculator.Value.Interface.{value}
use capnproto_test.Calculator.Value.ReadParams.{read_params}
use capnproto_test.Calculator.Value.ReadResults.{read_results}

module _ ⦃R : Layout⦄ ⦃rpc : Rpc⦄ where
  unfoldable pub read_request :
      Client value → R.State → rpc.Request read_params read_results × R.State
  read_request c = rpc.new_call read_params read_results c.client value.type_id 0 none
