-- ===== src/Main/Client/Served.antt =====
-- `client_main` against a peer that evaluates literals.
use capnproto_test.Base.{sym, ◌^◌, ◌<◌, ℕ, none, [], ◌∷◌, ◌++◌, ok, ◌≡◌, refl, ◌∙◌, ap, arith}
use capnproto_test.Layout.{Layout}
use capnproto_test.Layout.Elements.{u16, f64}
use capnproto_test.Layout.Laws.{Content, IsLawful}
use capnproto_test.Layout.Rpc.{Rpc, Ids, IsRouting}
use capnproto_test.Interface.{Client, read_client}
use capnproto_test.Struct.{Builder, builder_init_pointer}
use capnproto_test.Struct.Fields.{HasRoom, get-set, get-set_other}
use capnproto_test.Struct.Pointers.{init_pointer-target, init_pointer-HasRoom}
use capnproto_test.Calculator.Interface
use capnproto_test.Calculator.Interface.{calculator}
use capnproto_test.Calculator.Requests as CalculatorRequests
use capnproto_test.Calculator.Expression.{expression}
use capnproto_test.Calculator.Expression.Builder as ExpressionBuilder
use capnproto_test.Calculator.EvaluateParams
use capnproto_test.Calculator.EvaluateParams.{evaluate_params}
use capnproto_test.Calculator.EvaluateParams.Builder as EvaluateBuilder
use capnproto_test.Calculator.EvaluateResults.{evaluate_results}
use capnproto_test.Calculator.EvaluateResults.Reader as EvaluateReader
use capnproto_test.Calculator.Value.Interface.{value}
use capnproto_test.Calculator.Value.Requests as ValueRequests
use capnproto_test.Calculator.Value.ReadParams.{read_params}
use capnproto_test.Calculator.Value.ReadResults.{read_results}
use capnproto_test.Calculator.Value.ReadResults.Reader as ReadReader
use capnproto_test.Main.World.{connecting, got_response, value_is, all_done, Network, World}
use capnproto_test.Main.Client.{literal_123, fill_request, client_main}
use capnproto_test.Main.Client.Sent.{set_literal-target}
use capnproto_test.Main.Client.Printed.{Answers, client_main-Answers}
use capnproto_test.Main.Client.Peer.{Connects, Peer, Evaluated, Replied, IsEvaluating}

module _ ⦃R : Layout⦄ {C : Content R} (L : IsLawful R C) where
  -- The message of evaluate parameters with a new expression that is set to a literal.
  literal-message :
      (b : Builder evaluate_params)
      → HasRoom C b
      → (v : ℕ) (s : R.State) → v < 2 ^ 64
      → let made = EvaluateBuilder.init_expression b s in
        let t = ExpressionBuilder.set_literal made.0 v made.1 in
        let e = R.into_reader made.0.builder t in
        (R.get_struct (R.get_pointer_field (R.into_reader b.builder t) 0) t ≡ ok e t)
        × (R.get_data_field e u16 4 ≡ 0)
        × (R.get_data_field e f64 0 ≡ v)
  unfolding EvaluateBuilder.init_expression ExpressionBuilder.set_literal
  literal-message b room v s small =
      let p = R.get_pointer_field_mut b.builder 0 in
      let (c, u) = builder_init_pointer expression p 0 s in
      let c_room = init_pointer-HasRoom L expression p s in
      let q = R.set_data_field c.builder u16 4 0 u in
      let t = R.set_data_field c.builder f64 0 v q in
      (
        L.get_struct-into_reader b.builder 0 t (omega (arith, room.pointer_room))
            (set_literal-target L c c_room v p u ∙ init_pointer-target L expression p s),
        L.get_data_field-into_reader c.builder u16 4 t (omega (arith, c_room.data_room))
            ∙ get-set_other L c c_room f64 u16 0 4 v q (omega arith) (omega arith) (omega arith)
            ∙ get-set L c c_room u16 4 0 u (omega arith) (omega arith),
        L.get_data_field-into_reader c.builder f64 0 t (omega (arith, c_room.data_room))
            ∙ get-set L c c_room f64 0 v q (omega arith) small,
      )

module _ ⦃R : Layout⦄ ⦃rpc : Rpc⦄ {C : Content R} {ids : Ids rpc} {IoError : Type 0}
    {net : Network IoError} {peer : Peer net} (L : IsLawful R C) (routing : IsRouting rpc ids)
    (serves : IsEvaluating net C ids peer) where
  -- The first request, filled, is one that the peer evaluates.
  fill_request-Evaluated :
      (runtime : net.Runtime) (c : Client calculator) (s : R.State)
      → let (request, t) = CalculatorRequests.evaluate_request c s in
        Evaluated net peer runtime request literal_123 (fill_request net request t)
  unfolding fill_request CalculatorRequests.evaluate_request
  fill_request-Evaluated runtime c s =
      let (request, t) =
        rpc.new_call evaluate_params evaluate_results c.client calculator.type_id 0 none s in
      let b = EvaluateParams.builder_impls.new (net.get request t).0 in
      let same = serves.get-parameters request t in
      let room : HasRoom C b = record {
        data_room = rw same (serves.data_room request);
        pointer_room = rw same (serves.pointer_room request);
      } in
      let (struct, tag, field) =
        literal-message L b room literal_123 (net.get request t).1 (omega arith) in
      serves.evaluates runtime request literal_123 _ _ (routing.interface_id-new_call _ _ _ _ _ _ _)
        (routing.method_id-new_call _ _ _ _ _ _ _) (rw (sym same) struct) tag field

  read_request-Replied :
      (runtime : net.Runtime) (c : R.CapClient) (v : ℕ) (s : R.State)
      → peer.Stands c v
      → let (request, t) = ValueRequests.read_request (record { client = c }) s in
        Replied net runtime request v t
  unfolding ValueRequests.read_request
  read_request-Replied runtime c v s stands =
      serves.reads runtime _ v _ (routing.interface_id-new_call _ _ _ _ _ _ _)
        (routing.method_id-new_call _ _ _ _ _ _ _)
        (rw (serves.receiver-new_call read_params read_results c value.type_id 0 s) stands)

  -- Where the connection is made to a peer that answers method 0 of a calculator, on parameters that
  -- hold a literal, by a value that stands for the literal, and method 0 of a value by its number,
  -- while the RPC system runs, `client_main` returns `Ok` and has printed exactly the address, the
  -- line on the response, the number 123.0 and the last line, in this order.
  pub client_main-serves :
      (w : World) (runtime : net.Runtime) (hook : R.ClientHook) (joined : R.State)
      → Connects net w.state runtime hook joined
      → (t : R.State) × (client_main net w
          ≡ ok tt (record {
            lines =
                w.lines
                ++ (connecting "127.0.0.1:9494"
                    ∷ got_response
                    ∷ value_is literal_123
                    ∷ all_done
                    ∷ []);
            state = t;
          }))
  unfolding EvaluateReader.get_value ReadReader.get_value read_client
  client_main-serves w runtime hook joined c =
      let (request, asking) =
        CalculatorRequests.evaluate_request (Interface.client_impls.new hook) joined in
      let first = fill_request-Evaluated runtime (Interface.client_impls.new hook) joined in
      let v : Client value = record { client = R.client_new first.hook } in
      let (again, reading) = ValueRequests.read_request v first.found in
      let second =
        read_request-Replied runtime (R.client_new first.hook) literal_123 first.found
          first.stands in
      let answers : Answers net w.state second.results second.opened = record {
        runtime = runtime;
        addr = c.addr;
        stream = c.stream;
        system = c.system;
        hook = hook;
        request = request;
        response = first.answer;
        results = first.results;
        client = v;
        read_request = again;
        answer = second.answer;
        started = c.started;
        parsed = c.parsed;
        connected = c.connected;
        prepared = c.prepared;
        joined = c.made;
        booted = c.booted;
        asking = asking;
        answered = first.answered;
        opened = first.opened;
        found = first.found;
        reading = reading;
        replied = second.answered;
        new_runtime = c.new_runtime;
        parse = c.parse;
        connects = c.connects;
        set_nodelay = c.set_nodelay;
        new_rpc_system = c.new_rpc_system;
        bootstrap = c.bootstrap;
        evaluate = rw c.spawned refl;
        send = first.send;
        get_response = first.get_response;
        get_value = rw first.get_capability refl;
        read = refl;
        send_read = second.send;
        get_reply = second.get_response;
      } in
      (
        second.opened,
        client_main-Answers net w second.results second.opened answers
            ∙ ap
                (λ n. ok tt (record {
                  lines =
                      w.lines
                      ++ (connecting "127.0.0.1:9494" ∷ got_response ∷ value_is n ∷ all_done ∷ []);
                  state = second.opened;
                }))
                second.number,
      )
