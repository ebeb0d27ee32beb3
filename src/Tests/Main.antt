-- ===== src/Tests/Main.antt =====
-- main.rs on a concrete file and a concrete network.
use Prim.Native.String.{String}
use capnproto_test.Base.{
  ◌↔◌, Result, ◌++◌, ◌≢◌, ℕ, none, List, [], ◌∷◌, get_elem?, ◌==◌, ◌||◌, if◌then◌else◌, ◌≡◌, refl,
  ok, final, known,
}
use capnproto_test.Layout.Elements.{u16}
use capnproto_test.Layout.Memory.{Memory, empty, struct_at, structs, bytes, capability_of}
use capnproto_test.Layout.Memory.Words.{read}
use capnproto_test.Layout.Memory.Instance.{memory_layout}
use capnproto_test.Layout.Memory.Lawful.{memory_layout-IsLawful}
use capnproto_test.Struct.{Reader, reader_from_pointer}
use capnproto_test.Tests.Builders.{first, first-HasRoom, filled}
use capnproto_test.Tests.Rpc.{memory_rpc}
use capnproto_test.Frames.AudioFrame.{audio_frame}
use capnproto_test.Frames.AudioFrame.Reader as AudioReader
use capnproto_test.Frames.Rational.{rational}
use capnproto_test.Frames.Rational.Reader as RationalReader
use capnproto_test.Frames.Frame.{frame}
use capnproto_test.Frames.Frame.Which.{audio_frame_case}
use capnproto_test.Frames.Frame.Reader as FrameReader
use capnproto_test.Frames.Frames.{frames}
use capnproto_test.Frames.Frames.Reader as FramesReader
use capnproto_test.Calculator.Interface.{calculator}
use capnproto_test.Calculator.Expression.{expression}
use capnproto_test.Calculator.Expression.Which.{literal}
use capnproto_test.Calculator.Expression.Reader as ExpressionReader
use capnproto_test.Calculator.EvaluateParams
use capnproto_test.Calculator.EvaluateParams.{evaluate_params}
use capnproto_test.Calculator.EvaluateParams.Reader as EvaluateReader
use capnproto_test.Calculator.EvaluateResults.{evaluate_results}
use capnproto_test.Main.{main}
use capnproto_test.Main.World.{
  not_audio_frame, stream_id, channels, pts, audio_data, World, Files, Network, crate, host,
}
use capnproto_test.Main.Logs.{FramesLog, ClientLog, Stops}
use capnproto_test.Main.Frames.{print_audio_frame, print_frame, expect_frame, frames_main}
use capnproto_test.Main.Frames.Printed.{
  Opens, audio_lines, frames_main-prints_audio, frames_main-prints_other_iff,
}
use capnproto_test.Main.Frames.Output.{frames_main-Stops}
use capnproto_test.Main.Client.{literal_123, fill_request, client_main}
use capnproto_test.Main.Client.Output.{client_main-Stops}
use capnproto_test.Main.Client.Sent.{fill_request_lem}
use capnproto_test.Main.Outcomes.{Ran, main-Ran}

-- A message with one frame, an audio frame with each number 1 and two bytes.
abbrev one_frame : Memory
one_frame = record empty {
  slot = λ id j. if id == 3 then 0 else if (j == 0) || ((j == 2) || (j == 4)) then 1 else 0;
  cell = λ id j.
      if id == 2
      then structs (record { id = 3; size = frame.struct_size } ∷ [])
      else if id == 3
      then struct_at (record { id = 4; size = audio_frame.struct_size })
      else if j == 0
      then bytes (1 ∷ 2 ∷ [])
      else struct_at (record { id = 5; size = rational.struct_size });
}

-- The division of the two small numbers is taken as given.
abbrev one_file : Files ℕ
one_file = record {
  File = Unit;
  Message = Memory;
  open_file = λ name. ok tt;
  read_message = λ f. ok one_frame;
  root_pointer = λ m.
      ok (record { memory = m; cell = struct_at (record { id = 2; size = frames.struct_size }) });
  f64_from_u32 = λ n. n;
  f64_div = λ a b. a;
}

abbrev pub answer_memory : Memory
answer_memory = record (filled 7) { cell = λ id j. capability_of 5 }

-- A network whose server answers each request with the struct 1 of a memory in which each slot is 7 and
-- each pointer the same capability.
abbrev pub answering : Network ℕ
answering = record {
  Runtime = Unit;
  SocketAddr = String;
  TcpStream = String;
  RpcSystem = String;
  Response = λ q. Reader q;
  new_runtime = ok tt;
  parse = λ name. ok name;
  connect = λ r addr. ok addr;
  set_nodelay = λ stream. ok tt;
  new_rpc_system = λ stream s. (stream, s);
  bootstrap = λ system s. (1, s);
  spawn = λ r system s. s;
  get = λ {p} {q} request s. ((first p).builder, s);
  send = λ {p} {q} r request s.
      (none, ok (record { reader = record { memory = answer_memory; box = (first q).builder } }) s);
  get_response = λ response. ok response.reader;
}

abbrev pub start : World
start = record { lines = []; state = empty }

frames_main-Stops_example : Stops (FramesLog []) (frames_main one_file start)
frames_main-Stops_example = frames_main-Stops one_file start

client_main-Stops_example : Stops (ClientLog []) (client_main answering start)
client_main-Stops_example = client_main-Stops answering start

abbrev frames_arguments : List String
frames_arguments = "capnproto-test" ∷ "frames" ∷ []

main-Ran_example :
    Ran start (get_elem? frames_arguments 1) (main one_file answering frames_arguments start)
main-Ran_example = main-Ran one_file answering frames_arguments start

abbrev pub evaluate_envelope : memory_rpc.Request evaluate_params evaluate_results
evaluate_envelope = record { interface = calculator.type_id; method = 0; receiver = 1 }

fill_request_example :
    let b = first evaluate_params in
    let t = fill_request answering {q = evaluate_results} evaluate_envelope (filled 7) in
    (r : Reader expression) × (EvaluateReader.get_expression
        (EvaluateParams.builder_impls.into_reader b t)
        t
      ≡ ok r t)
    × (ExpressionReader.which r t ≡ ok (known (literal literal_123)) t)
fill_request_example =
    fill_request_lem memory_layout-IsLawful answering {q = evaluate_results} evaluate_envelope
      (filled 7) (first-HasRoom evaluate_params)

-- What `frames` prints for that file.
frames_main-lines :
    (final (frames_main one_file start)).lines
    ≡ (stream_id 1 ∷ channels 1 ∷ pts 1 ∷ audio_data (1 ∷ 2 ∷ []) ∷ [])
unfolding frames_main print_audio_frame print_frame expect_frame crate host read reader_from_pointer
    FramesReader.get_frames FrameReader.which AudioReader.get_stream_id AudioReader.get_channels
    AudioReader.get_pts AudioReader.get_data RationalReader.get_num RationalReader.get_den
frames_main-lines = refl

abbrev frame_in : Memory → Reader frame
frame_in m = record {
  reader = record { memory = m; box = record { id = 3; size = frame.struct_size } };
}

abbrev audio_in : Memory → Reader audio_frame
audio_in m = record {
  reader = record { memory = m; box = record { id = 4; size = audio_frame.struct_size } };
}

abbrev pts_in : Memory → Reader rational
pts_in m = record {
  reader = record { memory = m; box = record { id = 5; size = rational.struct_size } };
}

-- A file that holds a message with the cells of `one_frame`.
abbrev file_of : Memory → Files ℕ
file_of m = record one_file { read_message = λ f. ok m }

file_of-Opens :
    (slot : ℕ → ℕ → ℕ)
    → let m = record one_frame { slot = slot } in Opens (file_of m) empty (frame_in m) empty
unfolding FramesReader.get_frames reader_from_pointer
file_of-Opens slot =
    let m = record one_frame { slot = slot } in
    record {
      file = tt;
      message = m;
      pointer = record {
        memory = m;
        cell = struct_at (record { id = 2; size = frames.struct_size });
      };
      root = record {
        reader = record { memory = m; box = record { id = 2; size = frames.struct_size } };
      };
      list = (frame_in m).reader ∷ [];
      first = (frame_in m).reader;
      rest = [];
      opened = empty;
      read = empty;
      pointed = empty;
      rooted = empty;
      file_opens = refl;
      read_message = refl;
      root_pointer = refl;
      get_root = refl;
      get_frames = refl;
      iter = refl;
      is_first = refl;
    }

which-one_frame :
    FrameReader.which (frame_in one_frame) empty
    ≡ ok (known (audio_frame_case (Result.ok (audio_in one_frame)))) empty
unfolding FrameReader.which reader_from_pointer read
which-one_frame = refl

get_pts-one_frame : AudioReader.get_pts (audio_in one_frame) empty ≡ ok (pts_in one_frame) empty
unfolding AudioReader.get_pts reader_from_pointer
get_pts-one_frame = refl

get_data-one_frame : AudioReader.get_data (audio_in one_frame) empty ≡ ok (1 ∷ 2 ∷ []) empty
unfolding AudioReader.get_data
get_data-one_frame = refl

frames_main-prints_audio_example :
    frames_main (file_of one_frame) start
    ≡ ok tt (record {
      lines =
          []
          ++ audio_lines (file_of one_frame) (audio_in one_frame) (pts_in one_frame) (1 ∷ 2 ∷ []);
      state = empty;
    })
frames_main-prints_audio_example =
    frames_main-prints_audio (file_of one_frame) start (frame_in one_frame) (audio_in one_frame)
      (pts_in one_frame) (1 ∷ 2 ∷ []) empty empty empty empty (file_of-Opens one_frame.slot)
      which-one_frame get_pts-one_frame get_data-one_frame

-- The same message with a discriminant that the schema does not know.
abbrev strange_frame : Memory
strange_frame = record one_frame { slot = λ id j. 9 }

frames_main-prints_other_example :
    ((t : Memory) × (frames_main (file_of strange_frame) start
        ≡ ok tt (record { lines = [] ++ not_audio_frame ∷ []; state = t })))
    ↔ (memory_layout.get_data_field (frame_in strange_frame).reader u16 0 ≢ 0)
frames_main-prints_other_example =
    frames_main-prints_other_iff (file_of strange_frame) memory_layout-IsLawful start
      (frame_in strange_frame) empty (file_of-Opens strange_frame.slot)
