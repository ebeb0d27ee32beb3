-- ===== src/Main/Client/Printed.antt =====
-- What `client_main` prints when the server answers.
use capnproto_test.Base.{append-four, none, List, [], ◌∷◌, ◌++◌, ok, ◌≡◌, arith}
use capnproto_test.Layout.{Layout}
use capnproto_test.Layout.Rpc.{Rpc}
use capnproto_test.Interface.{Client}
use capnproto_test.Calculator.Interface
use capnproto_test.Calculator.Requests as CalculatorRequests
use capnproto_test.Calculator.EvaluateParams.{evaluate_params}
use capnproto_test.Calculator.EvaluateResults
use capnproto_test.Calculator.EvaluateResults.{evaluate_results}
use capnproto_test.Calculator.EvaluateResults.Reader as EvaluateReader
use capnproto_test.Calculator.Value.Interface.{value}
use capnproto_test.Calculator.Value.Requests as ValueRequests
use capnproto_test.Calculator.Value.ReadParams.{read_params}
use capnproto_test.Calculator.Value.ReadResults
use capnproto_test.Calculator.Value.ReadResults.{read_results}
use capnproto_test.Calculator.Value.ReadResults.Reader as ReadReader
use capnproto_test.Main.World.{
  connecting, got_response, value_is, all_done, Network, World, Printed, crate, host,
}
use capnproto_test.Main.Client.{report, block_on, fill_request, client_main}

module _ ⦃R : Layout⦄ ⦃rpc : Rpc⦄ {IoError : Type 0} (net : Network IoError) where
  -- The connection is made, and both requests are answered while the RPC system runs; the second answer is `reply`.
  pub record Answers (s : R.State) (reply : R.StructReader) (t : R.State) : Type 0 where
    pub runtime : net.Runtime
    pub addr : net.SocketAddr
    pub stream : net.TcpStream
    pub system : net.RpcSystem
    pub hook : R.ClientHook
    pub request : rpc.Request evaluate_params evaluate_results
    pub response : net.Response evaluate_results
    pub results : R.StructReader
    pub client : Client value
    pub read_request : rpc.Request read_params read_results
    pub answer : net.Response read_results
    pub started : R.State
    pub parsed : R.State
    pub connected : R.State
    pub prepared : R.State
    pub joined : R.State
    pub booted : R.State
    pub asking : R.State
    pub answered : R.State
    pub opened : R.State
    pub found : R.State
    pub reading : R.State
    pub replied : R.State
    pub new_runtime : net.new_runtime s ≡ ok runtime started
    pub parse : net.parse "127.0.0.1:9494" started ≡ ok addr parsed
    pub connects : net.connect runtime addr parsed ≡ ok stream connected
    pub set_nodelay : net.set_nodelay stream connected ≡ ok tt prepared
    pub new_rpc_system : net.new_rpc_system stream prepared ≡ (system, joined)
    pub bootstrap : net.bootstrap system joined ≡ (hook, booted)
    pub evaluate :
        CalculatorRequests.evaluate_request
          (Interface.client_impls.new hook)
          (net.spawn runtime system booted)
        ≡ (request, asking)
    pub send :
        net.send runtime request (fill_request net request asking) ≡ (none, ok response answered)
    pub get_response : net.get_response response answered ≡ ok results opened
    pub get_value :
        EvaluateReader.get_value (EvaluateResults.reader_impls.new results) opened ≡ ok client found
    pub read : ValueRequests.read_request client found ≡ (read_request, reading)
    pub send_read : net.send runtime read_request reading ≡ (none, ok answer replied)
    pub get_reply : net.get_response answer replied ≡ ok reply t

  abbrev pub answer_lines : R.StructReader → List Printed
  answer_lines reply =
      connecting "127.0.0.1:9494"
      ∷ got_response
      ∷ value_is (ReadReader.get_value (ReadResults.reader_impls.new reply))
      ∷ all_done
      ∷ []

  -- Where the connection is made and both requests are answered while the RPC system runs,
  -- `client_main` returns `Ok` and has printed exactly the address, the line on the response, the
  -- number of the second answer and the last line, in this order.
  pub client_main-Answers :
      (w : World) (reply : R.StructReader) (t : R.State)
      → Answers w.state reply t
      → client_main net w ≡ ok tt (record { lines = w.lines ++ answer_lines reply; state = t })
  unfolding client_main block_on report crate host
  client_main-Answers w reply t a = ground (
    append-four w.lines (connecting "127.0.0.1:9494") got_response
        (value_is (ReadReader.get_value (ReadResults.reader_impls.new reply))) all_done,
    arith,
    a.new_runtime,
    a.parse,
    a.connects,
    a.set_nodelay,
    a.new_rpc_system,
    a.bootstrap,
    a.evaluate,
    a.send,
    a.get_response,
    a.get_value,
    a.read,
    a.send_read,
    a.get_reply,
  )
