-- ===== src/Main/Client.antt =====
-- `client_main` of rust/src/main.rs.
pub mod Output
pub mod Sent
pub mod Printed
pub mod Peer
pub mod Served
use capnproto_test.Base.{ℕ, Option, none, some, Outcome, ok, Command, ◌>>=◌, ◌>>◌}
use capnproto_test.Layout.{Layout, Owned}
use capnproto_test.Layout.Rpc.{Rpc}
use capnproto_test.Calculator.Interface
use capnproto_test.Calculator.Requests as CalculatorRequests
use capnproto_test.Calculator.EvaluateParams
use capnproto_test.Calculator.EvaluateParams.Builder as EvaluateBuilder
use capnproto_test.Calculator.EvaluateResults
use capnproto_test.Calculator.EvaluateResults.Reader as EvaluateReader
use capnproto_test.Calculator.Expression.Builder as ExpressionBuilder
use capnproto_test.Calculator.Value.Requests as ValueRequests
use capnproto_test.Calculator.Value.ReadResults
use capnproto_test.Calculator.Value.ReadResults.Reader as ReadReader
use capnproto_test.Main.World.{
  Line, connecting, encountered_error, got_response, value_is, all_done, World, capnp, Network, Run,
  print, crate, host, infallible, change, in_world,
}

-- The image of the `f64` 123.0
abbrev pub literal_123 : ℕ
literal_123 = 0x405e_c000_0000_0000

module _ ⦃R : Layout⦄ ⦃rpc : Rpc⦄ {IoError : Type 0} (net : Network IoError) where
  -- `block_on`. The spawned RPC system prints the error by which it ends.
  unfoldable pub report : {A : Type 0} → Option R.Error → Outcome R.State R.Error A → Run IoError A
  report none response w = in_world capnp w response
  report (some e) response w = (print (encountered_error e) >> λ w'. in_world capnp w' response) w

  unfoldable pub block_on :
      {p q : Owned} → net.Runtime → rpc.Request p q → Run IoError (net.Response q)
  block_on runtime request w =
      let (ended, response) = net.send runtime request w.state in report ended response w

  -- `request.get().init_expression().set_literal(123.0)`
  unfoldable pub fill_request :
      {q : Owned} → rpc.Request EvaluateParams.evaluate_params q → R.State → R.State
  fill_request request s =
      let (b, t) = net.get request s in
      let (e, u) = EvaluateBuilder.init_expression (EvaluateParams.builder_impls.new b) t in
      ExpressionBuilder.set_literal e literal_123 u

  unfoldable pub client_main : Run IoError (Unit {0})
  client_main = do
    runtime ← host net.new_runtime
    print (connecting "127.0.0.1:9494")
    addr ← host (net.parse "127.0.0.1:9494")
    stream ← host (net.connect runtime addr)
    host (net.set_nodelay stream)
    rpc_system ← infallible (net.new_rpc_system stream)
    hook ← infallible (net.bootstrap rpc_system)
    change (net.spawn runtime rpc_system)
    request ← infallible (CalculatorRequests.evaluate_request (Interface.client_impls.new hook))
    change (fill_request request)
    response ← block_on runtime request
    print got_response
    results ← crate (net.get_response response)
    v ← crate (EvaluateReader.get_value (EvaluateResults.reader_impls.new results))
    read ← infallible (ValueRequests.read_request v)
    answer ← block_on runtime read
    value ← crate (net.get_response answer)
    print (value_is (ReadReader.get_value (ReadResults.reader_impls.new value)))
    print all_done
