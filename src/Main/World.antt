-- ===== src/Main/World.antt =====
-- What rust/src/main.rs acts on: the lines that the process has printed and the state of the crate. The file, the
-- network and the arithmetic on `f64` are parameters.
use Prim.Native.String.{String}
use capnproto_test.Base.{ℕ, Option, List, [], ◌∷◌, ◌++◌, Outcome, ok, err, panic, Command}
use capnproto_test.Layout.{Layout, Owned}
use capnproto_test.Layout.Rpc.{Rpc}

-- The lines that the two commands print, each with the values that it shows.
pub data Line (Bytes Error : Type 0) : Type 0 where
  stream_id : ℕ → Line Bytes Error
  channels : ℕ → Line Bytes Error
  pts : ℕ → Line Bytes Error
  audio_data : Bytes → Line Bytes Error
  not_audio_frame : Line Bytes Error
  connecting : String → Line Bytes Error
  encountered_error : Error → Line Bytes Error
  got_response : Line Bytes Error
  value_is : ℕ → Line Bytes Error
  all_done : Line Bytes Error

module _ ⦃R : Layout⦄ where
  abbrev pub Printed : Type 0
  Printed = Line R.DataReader R.Error

  pub record World : Type 0 where
    pub lines : List Printed
    pub state : R.State

  -- `Box<dyn Error>`: an error of the crate, or one of the standard library and tokio.
  pub data Failure (IoError : Type 0) : Type 0 where
    capnp : R.Error → Failure IoError
    io : IoError → Failure IoError

  -- Files, `capnp::serialize` and `f64`.
  pub record Files (IoError : Type 0) : Type 1 where
    pub File : Type 0
    pub Message : Type 0
    pub open_file : String → Command R.State IoError File
    pub read_message : File → Command R.State R.Error Message
    -- The pointer that `get_root` hands to the root type's `get_from_pointer`
    pub root_pointer : Message → Command R.State R.Error R.PointerReader
    pub f64_from_u32 : ℕ → ℕ
    pub f64_div : ℕ → ℕ → ℕ

  -- tokio and `capnp-rpc`. While a request is awaited the spawned RPC system may end; if it ends by an error,
  -- the response comes with that error.
  pub record Network ⦃rpc : Rpc⦄ (IoError : Type 0) : Type 1 where
    pub Runtime : Type 0
    pub SocketAddr : Type 0
    pub TcpStream : Type 0
    pub RpcSystem : Type 0
    pub Response : Owned → Type 0
    pub new_runtime : Command R.State IoError Runtime
    pub parse : String → Command R.State IoError SocketAddr
    pub connect : Runtime → SocketAddr → Command R.State IoError TcpStream
    pub set_nodelay : TcpStream → Command R.State IoError (Unit {0})
    -- `RpcSystem::new` over a client-side `twoparty::VatNetwork`
    pub new_rpc_system : TcpStream → R.State → RpcSystem × R.State
    -- The hook of the client that `bootstrap` makes
    pub bootstrap : RpcSystem → R.State → R.ClientHook × R.State
    pub spawn : Runtime → RpcSystem → R.State → R.State
    -- `Request::get`, as an untyped builder
    pub get : {p q : Owned} → rpc.Request p q → R.State → R.StructBuilder × R.State
    -- `block_on(request.send().promise)`
    pub send :
        {p q : Owned}
        → Runtime
        → rpc.Request p q
        → R.State
        → Option R.Error × Outcome R.State R.Error (Response q)
    -- `Response::get`, as an untyped reader
    pub get_response : {q : Owned} → Response q → Command R.State R.Error R.StructReader

  -- How a command ends.
  abbrev pub Ending : Type 0 → Type 0
  Ending IoError = Outcome World (Failure IoError) (Unit {0})

  abbrev pub Run : Type 0 → Type 0 → Type 0
  Run IoError A = Command World (Failure IoError) A

module _ ⦃R : Layout⦄ {IoError : Type 0} where
  -- `println!`
  abbrev pub print : Printed → Run IoError (Unit {0})
  print line w = ok tt (record w { lines = w.lines ++ (line ∷ []) })

  -- The end of a call of the crate or of the host, in the world that it was made from.
  abbrev pub in_world :
      {E A : Type 0}
      → (E → Failure IoError)
      → World
      → Outcome R.State E A
      → Outcome World (Failure IoError) A
  in_world f w (ok a s) = ok a (record w { state = s })
  in_world f w (err e s) = err (f e) (record w { state = s })
  in_world f w (panic s) = panic (record w { state = s })

  unfoldable pub crate : {A : Type 0} → Command R.State R.Error A → Run IoError A
  crate m w = in_world capnp w (m w.state)

  unfoldable pub host : {A : Type 0} → Command R.State IoError A → Run IoError A
  host m w = in_world io w (m w.state)

  -- A call that cannot fail.
  abbrev pub infallible : {A : Type 0} → (R.State → A × R.State) → Run IoError A
  infallible f w = let (a, s) = f w.state in ok a (record w { state = s })

  abbrev pub change : (R.State → R.State) → Run IoError (Unit {0})
  change f w = ok tt (record w { state = f w.state })
