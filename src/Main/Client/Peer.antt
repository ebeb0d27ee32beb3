-- ===== src/Main/Client/Peer.antt =====
-- The peer of `client_main`, described by the messages that it receives and sends, in the layout of
-- schema/calculator.capnp.
use capnproto_test.Base.{ℕ, none, ok, ◌≡◌, ◌≤◌}
use capnproto_test.Layout.{Layout, Owned}
use capnproto_test.Layout.Elements.{u16, f64}
use capnproto_test.Layout.Laws.{Content}
use capnproto_test.Layout.Rpc.{Rpc, Ids}
use capnproto_test.Calculator.Interface.{calculator}
use capnproto_test.Calculator.EvaluateParams.{evaluate_params}
use capnproto_test.Calculator.EvaluateResults.{evaluate_results}
use capnproto_test.Calculator.Value.Interface.{value}
use capnproto_test.Calculator.Value.ReadParams.{read_params}
use capnproto_test.Calculator.Value.ReadResults.{read_results}
use capnproto_test.Main.World.{Network}

module _ ⦃R : Layout⦄ ⦃rpc : Rpc⦄ {IoError : Type 0} (net : Network IoError) where
  -- The runtime starts, and the connection is made.
  pub record Connects (s : R.State) (runtime : net.Runtime) (hook : R.ClientHook) (joined : R.State)
      : Type 0 where
    pub addr : net.SocketAddr
    pub stream : net.TcpStream
    pub system : net.RpcSystem
    pub started : R.State
    pub parsed : R.State
    pub connected : R.State
    pub prepared : R.State
    pub made : R.State
    pub booted : R.State
    pub new_runtime : net.new_runtime s ≡ ok runtime started
    pub parse : net.parse "127.0.0.1:9494" started ≡ ok addr parsed
    pub connects : net.connect runtime addr parsed ≡ ok stream connected
    pub set_nodelay : net.set_nodelay stream connected ≡ ok tt prepared
    pub new_rpc_system : net.new_rpc_system stream prepared ≡ (system, made)
    pub bootstrap : net.bootstrap system made ≡ (hook, booted)
    pub spawned : net.spawn runtime system booted ≡ joined

  -- What a request carries besides its ids, and which capabilities stand for which number.
  pub record Peer : Type 1 where
    pub parameters : {p q : Owned} (request : rpc.Request p q) → R.StructBuilder
    pub receiver : {p q : Owned} (request : rpc.Request p q) → R.CapClient
    pub Stands : R.CapClient → ℕ → Type 0

  -- The request is answered by results that hold a capability which stands for `v`.
  pub record Evaluated (peer : Peer) (runtime : net.Runtime)
      (request : rpc.Request evaluate_params evaluate_results) (v : ℕ) (s : R.State) : Type 0 where
    pub answer : net.Response evaluate_results
    pub results : R.StructReader
    pub hook : R.ClientHook
    pub answered : R.State
    pub opened : R.State
    pub found : R.State
    pub send : net.send runtime request s ≡ (none, ok answer answered)
    pub get_response : net.get_response answer answered ≡ ok results opened
    pub get_capability : R.get_capability (R.get_pointer_field results 0) opened ≡ ok hook found
    pub stands : peer.Stands (R.client_new hook) v

  -- The request is answered by results that hold the number `v`.
  pub record Replied (runtime : net.Runtime) (request : rpc.Request read_params read_results)
      (v : ℕ) (s : R.State) : Type 0 where
    pub answer : net.Response read_results
    pub results : R.StructReader
    pub answered : R.State
    pub opened : R.State
    pub send : net.send runtime request s ≡ (none, ok answer answered)
    pub get_response : net.get_response answer answered ≡ ok results opened
    pub number : R.get_data_field results f64 0 ≡ v

  pub record IsEvaluating (C : Content R) (ids : Ids rpc) (peer : Peer) : Type 0 where
    -- `Request::get` gives the parameters, which have their struct; `new_call` calls the client.
    pub get-parameters :
        {p q : Owned} (request : rpc.Request p q) (s : R.State)
        → (net.get request s).0 ≡ peer.parameters request
    pub data_room :
        {p q : Owned} (request : rpc.Request p q)
        → p.struct_size.data_words ≤ (C.size (peer.parameters request)).data_words
    pub pointer_room :
        {p q : Owned} (request : rpc.Request p q)
        → p.struct_size.pointers ≤ (C.size (peer.parameters request)).pointers
    pub receiver-new_call :
        (p q : Owned) (c : R.CapClient) (i m : ℕ) (s : R.State)
        → peer.receiver (rpc.new_call p q c i m none s).0 ≡ c
    -- Method 0 of a calculator, on an expression whose union has the discriminant 0 and the literal `v`.
    pub evaluates :
        (runtime : net.Runtime) (request : rpc.Request evaluate_params evaluate_results) (v : ℕ)
        (e : R.StructReader) (s : R.State)
        → ids.interface_id request ≡ calculator.type_id
        → ids.method_id request ≡ 0
        → R.get_struct (R.get_pointer_field (R.into_reader (peer.parameters request) s) 0) s
          ≡ ok e s
        → R.get_data_field e u16 4 ≡ 0
        → R.get_data_field e f64 0 ≡ v
        → Evaluated peer runtime request v s
    -- Method 0 of a value that stands for `v`.
    pub reads :
        (runtime : net.Runtime) (request : rpc.Request read_params read_results) (v : ℕ)
        (s : R.State)
        → ids.interface_id request ≡ value.type_id
        → ids.method_id request ≡ 0
        → peer.Stands (peer.receiver request) v
        → Replied runtime request v s
