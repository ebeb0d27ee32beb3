-- ===== src/Calculator/Value/Server.antt =====
-- The trait `calculator::value::Server` and its `ServerDispatch` in rust/src/schema/calculator_capnp.rs.
use Prim.Native.String.{String}
use capnproto_test.Base.{ℕ, ◌==◌, if◌then◌else◌}
use capnproto_test.Layout.{Layout}
use capnproto_test.Layout.Rpc.{Rpc}
use capnproto_test.Interface.{ServerDispatch}
use capnproto_test.Calculator.Value.Interface.{value}
use capnproto_test.Calculator.Value.ReadParams.{read_params}
use capnproto_test.Calculator.Value.ReadResults.{read_results}

module _ ⦃R : Layout⦄ ⦃rpc : Rpc⦄ where
  -- A method changes the server, and sends what it answers through its results.
  abbrev pub Call : Type 0 → Type 0
  Call T = R.State → rpc.Promise × T × R.State

  abbrev pub refuse : {T : Type 0} → String → T → Call T
  refuse why server s = (rpc.promise_err (R.unimplemented why), server, s)

  pub record Server (T : Type 0) : Type 0 where
    pub read : T → rpc.Params read_params → rpc.Results read_results → Call T

  -- The bodies that the trait gives.
  abbrev pub default_server : (T : Type 0) → Server T
  default_server T = record { read = λ server _ _. refuse "method not implemented" server }

  unfoldable pub dispatch_call_internal :
      {T : Type 0} → Server T → T → ℕ → rpc.AnyParams → rpc.AnyResults → Call T
  dispatch_call_internal methods server method_id params results =
      if method_id == 0
      then methods.read server (rpc.typed_params read_params params)
          (rpc.typed_results read_results results)
      else refuse "Method not implemented." server

  unfoldable pub dispatch_call :
      {T : Type 0} → Server T → ServerDispatch T → ℕ → ℕ → rpc.AnyParams → rpc.AnyResults → Call T
  unfolding dispatch_call_internal
  dispatch_call methods dispatch interface_id method_id params results =
      if interface_id == value.type_id
      then dispatch_call_internal methods dispatch.server method_id params results
      else refuse "Method not implemented." dispatch.server
