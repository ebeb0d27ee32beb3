-- ===== src/Lib.antt =====
-- capnproto-test in Rust: readers, builders, clients and servers that are generated from two Cap'n
-- Proto schemas, and a program that prints a frame of a file or asks a calculator server for a value.
--
-- The parts and their files:
-- * Struct.antt has the types `Reader`, `Builder` and `Pipeline` and the trait impls that
--   rust/src/schema/frames_capnp.rs and rust/src/schema/calculator_capnp.rs repeat for each struct. They differ
--   only in the constants of `_private`, so the model has them once, over an `Owned` value with these
--   constants. Struct/Fields and Struct/Pointers carry the lemmas on builders that have room for
--   their struct.
-- * Frames/ is rust/src/schema/frames_capnp.rs, one module for each struct with `Reader` and `Builder`
--   below it, a function for each accessor. `which` of a union is the function `which` and gives a value of `Which`.
-- * Interface.antt and Calculator/ are rust/src/schema/calculator_capnp.rs. `Requests` has the requests of a client,
--   `Server` the trait with the bodies that it gives, and `dispatch_call` and `dispatch_call_internal`.
-- * Main.antt and Main/ are rust/src/main.rs: `main`, `frames_main` and `client_main` over the lines that
--   the process has printed and the state of the crate.
--
-- How the code is modelled:
-- * A call that may fail is a `Command` of Base/Commands: from a state to `ok`, `err` or `panic`, each with the
--   state that it leaves. `?` is `and_then`. A builder writes into the state; a reader is bound to memory that
--   nobody writes while it lives, so reading a field of it takes no state.
-- * Integers are natural numbers, and a setter's bound is a hypothesis where a result needs it. `i32` and `f64`
--   are the bits of their words: the code only copies them, and the division of two `f64` is a parameter.
-- * The crate `capnp` is a parameter: its types and functions are the record `Layout` (Layout.antt), those of its
--   RPC part `Rpc` (Layout/Rpc.antt), and what its documentation promises is `IsLawful` (Layout/Laws.antt) and `IsRouting`;
--   Layout/Separation states that different structs share no memory (`IsSeparated`).
--   Lists have fewer than 2 ^ 29 elements, and messages their capability table: beyond that the crate panics.
--   Results that need no promise of the crate do not ask for one. Layout/Memory is a small memory that meets
--   both; the tests run the code in it.
-- * `capnp::serialize`, files, `capnp-rpc` and tokio are the parameters `Files` and `Network` of Main/World. A line
--   printed while a request is awaited is the error of the RPC system that runs beside it.
-- * The peer of `client_main` is, where a result needs one, given by the messages that it receives and sends
--   (`IsEvaluating` of Main/Client/Peer).
-- * No function here takes fuel: the code has no loop.
--
-- Not modelled: rust/src/schema/mod.rs has no behaviour; the peers in go/, ts/ and py/ are other programs; the schemas in
-- schema/ are the input of the generator.
pub mod Base
pub mod Layout
pub mod Struct
pub mod Interface
pub mod Frames
pub mod Calculator
pub mod Main
pub mod Tests
