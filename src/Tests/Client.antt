-- ===== src/Tests/Client.antt =====
-- `client_main` with a peer that evaluates literals.
use capnproto_test.Base.{
  ℕ, none, [], ◌∷◌, ◌++◌, Outcome, ok, ◌≡◌, refl, ◌<◌, ◌^◌, ◌==◌, if◌then◌else◌, arith,
}
use Prim.Native.String.{String}
use capnproto_test.Layout.{Owned}
use capnproto_test.Layout.Elements.{f64}
use capnproto_test.Layout.Memory.{Memory, View, Failure, empty, capability_of}
use capnproto_test.Layout.Memory.Words.{write, read-write}
use capnproto_test.Layout.Memory.Instance.{memory_layout, memory_content}
use capnproto_test.Layout.Memory.Lawful.{memory_layout-IsLawful}
use capnproto_test.Tests.Builders.{first}
use capnproto_test.Tests.Rpc.{Envelope, memory_rpc, envelope_ids, envelope_ids-IsRouting}
use capnproto_test.Tests.Main.{start}
use capnproto_test.Calculator.Interface.{calculator}
use capnproto_test.Calculator.Value.Interface.{value}
use capnproto_test.Calculator.EvaluateParams.{evaluate_params}
use capnproto_test.Calculator.EvaluateResults.{evaluate_results}
use capnproto_test.Calculator.Value.ReadResults.{read_results}
use capnproto_test.Main.World.{connecting, got_response, value_is, all_done, Network}
use capnproto_test.Main.Client.{literal_123, client_main}
use capnproto_test.Main.Client.Peer.{Connects, Peer, Evaluated, Replied, IsEvaluating}
use capnproto_test.Main.Client.Served.{client_main-serves}

-- The literal of an expression that was read.
abbrev literal_in : Outcome Memory Failure View → ℕ
literal_in (ok e s) = memory_layout.get_data_field e f64 0
literal_in _ = 0

-- A calculator answers with the literal in its parameters, a value with the number that its client is.
abbrev answer_to : Envelope → Memory → ℕ
answer_to request s =
    if request.interface == calculator.type_id
    then literal_in (
        memory_layout.get_struct
          (memory_layout.get_pointer_field
            (memory_layout.into_reader (first evaluate_params).builder s) 0)
          s)
    else request.receiver

-- Results with the number `v` and the capability `v`.
abbrev results_of : Owned → ℕ → View
results_of q v = record {
  memory = record empty { slot = λ id. write 4 0 v (λ j. 0); cell = λ id j. capability_of v };
  box = (first q).builder;
}

abbrev evaluating : Network ℕ
evaluating = record {
  Runtime = Unit;
  SocketAddr = String;
  TcpStream = String;
  RpcSystem = String;
  Response = λ q. ℕ;
  new_runtime = ok tt;
  parse = λ name. ok name;
  connect = λ r addr. ok addr;
  set_nodelay = λ stream. ok tt;
  new_rpc_system = λ stream s. (stream, s);
  bootstrap = λ system s. (1, s);
  spawn = λ r system s. s;
  get = λ {p} {q} request s. ((first p).builder, s);
  send = λ {p} {q} r request s. (none, ok (answer_to request s) s);
  get_response = λ {q} v. ok (results_of q v);
}

abbrev literal_peer : Peer evaluating
literal_peer = record {
  parameters = λ {p} {q} request. (first p).builder;
  receiver = λ request. request.receiver;
  Stands = λ c v. (c ≡ v) × (v < 2 ^ 64);
}

evaluating-Evaluated :
    (request : Envelope) (v : ℕ) (e : View) (s : Memory)
    → request.interface ≡ calculator.type_id
    → memory_layout.get_struct
        (memory_layout.get_pointer_field
          (memory_layout.into_reader (first evaluate_params).builder s)
          0)
        s
      ≡ ok e s
    → memory_layout.get_data_field e f64 0 ≡ v
    → Evaluated evaluating literal_peer tt request v s
evaluating-Evaluated request v e s interface struct field = record {
  answer = v;
  results = results_of evaluate_results v;
  hook = v;
  answered = s;
  opened = s;
  found = s;
  send = ground arith;
  get_response = refl;
  get_capability = refl;
  stands = (refl, omega (arith, memory_layout-IsLawful.get_data_field-lt e f64 0));
}

evaluating-Replied :
    (request : Envelope) (v : ℕ) (s : Memory)
    → request.interface ≡ value.type_id
    → request.receiver ≡ v
    → v < 2 ^ 64
    → Replied evaluating tt request v s
evaluating-Replied request v s interface same small = record {
  answer = v;
  results = results_of read_results v;
  answered = s;
  opened = s;
  send = ground arith;
  get_response = refl;
  number = read-write 4 0 v (λ j. 0) (omega arith);
}

evaluating-IsEvaluating : IsEvaluating evaluating memory_content envelope_ids literal_peer
evaluating-IsEvaluating = record {
  get-parameters = λ request s. refl;
  data_room = λ request. omega arith;
  pointer_room = λ request. omega arith;
  receiver-new_call = λ p q c i m s. refl;
  evaluates = λ runtime request v e s interface method struct tag field.
      evaluating-Evaluated request v e s interface struct field;
  reads = λ runtime request v s interface method stands.
      evaluating-Replied request v s interface stands.0 stands.1;
}

evaluating-Connects : Connects evaluating empty tt 1 empty
evaluating-Connects = record {
  addr = "127.0.0.1:9494";
  stream = "127.0.0.1:9494";
  system = "127.0.0.1:9494";
  started = empty;
  parsed = empty;
  connected = empty;
  prepared = empty;
  made = empty;
  booted = empty;
  new_runtime = refl;
  parse = refl;
  connects = refl;
  set_nodelay = refl;
  new_rpc_system = refl;
  bootstrap = refl;
  spawned = refl;
}

client_main-serves_example :
    (t : Memory) × (client_main evaluating start
      ≡ ok tt (record {
        lines =
            []
            ++ (connecting "127.0.0.1:9494" ∷ got_response ∷ value_is literal_123 ∷ all_done ∷ []);
        state = t;
      }))
client_main-serves_example =
    client_main-serves memory_layout-IsLawful envelope_ids-IsRouting evaluating-IsEvaluating start
      tt 1 empty evaluating-Connects
