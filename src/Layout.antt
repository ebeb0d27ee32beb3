-- ===== src/Layout.antt =====
-- What the generated accessors take from the `capnp` crate (`capnp::private::layout` and the list
-- types): the crate is not part of the repository, so its types and functions are parameters.
pub mod Elements
pub mod Rpc
pub mod Laws
pub mod Separation
pub mod Memory
use Elements.{Element}
use Prim.Native.String.{String}
use capnproto_test.Base.{ℕ, Bool, Option, List, Outcome, Command}

-- `layout::StructSize`: words of data, and number of pointers.
pub record StructSize : Type 0 where
  pub data_words : ℕ
  pub pointers : ℕ

-- An `Owned` type of the generated code: the struct's `_private` constants.
pub record Owned : Type 0 where
  pub struct_size : StructSize
  pub type_id : ℕ

-- The crate. `State` is all that its functions may change: the arenas of the messages, their read
-- limits and the capability tables. A reader is bound to memory that nobody writes while it lives, so
-- reading a field of it needs no state; a builder's fields are read from the state.
pub record Layout : Type 1 where
  pub State : Type 0
  pub Error : Type 0
  -- `Error::unimplemented`
  pub unimplemented : String → Error
  pub StructReader : Type 0
  pub PointerReader : Type 0
  pub StructBuilder : Type 0
  pub PointerBuilder : Type 0
  pub DataReader : Type 0
  pub DataBuilder : Type 0
  pub StructListReader : Owned → Type 0
  pub StructListBuilder : Owned → Type 0
  pub PrimitiveListReader : Element → Type 0
  pub PrimitiveListBuilder : Element → Type 0
  pub CapTable : Type 0
  pub MessageSize : Type 0
  pub ClientHook : Type 0
  -- `capability::Client`, with its `new` and its field `hook`
  pub CapClient : Type 0
  pub client_new : ClientHook → CapClient
  pub hook : CapClient → ClientHook
  -- `ClientHook::add_ref`
  pub add_ref : ClientHook → ClientHook
  -- `any_pointer::Pipeline`, with its `get_pointer_field` and `as_cap`
  pub TypelessPipeline : Type 0
  pub pipeline_pointer_field : TypelessPipeline → ℕ → TypelessPipeline
  pub as_cap : TypelessPipeline → ClientHook
  -- `StructReader`
  pub get_data_field : StructReader → Element → ℕ → ℕ
  pub get_pointer_field : StructReader → ℕ → PointerReader
  pub total_size : StructReader → Command State Error MessageSize
  pub imbue : StructReader → CapTable → StructReader
  -- `PointerReader`
  pub is_null : PointerReader → Bool
  pub get_struct : PointerReader → Command State Error StructReader
  pub get_data : PointerReader → Command State Error DataReader
  pub get_capability : PointerReader → Command State Error ClientHook
  -- `StructBuilder`
  pub get_data_field_mut : StructBuilder → Element → ℕ → State → ℕ
  pub set_data_field : StructBuilder → Element → ℕ → ℕ → State → State
  pub get_pointer_field_mut : StructBuilder → ℕ → PointerBuilder
  pub into_reader : StructBuilder → State → StructReader
  pub imbue_mut : StructBuilder → CapTable → StructBuilder
  -- `PointerBuilder`
  pub is_null_mut : PointerBuilder → State → Bool
  pub get_struct_mut : PointerBuilder → StructSize → Command State Error StructBuilder
  pub get_data_mut : PointerBuilder → Command State Error DataBuilder
  pub get_capability_mut : PointerBuilder → Command State Error ClientHook
  pub init_struct : PointerBuilder → StructSize → State → StructBuilder × State
  pub init_data : PointerBuilder → ℕ → State → DataBuilder × State
  pub set_data : PointerBuilder → DataReader → State → State
  pub set_capability : PointerBuilder → ClientHook → State → State
  pub set_struct : PointerBuilder → StructReader → Bool → Command State Error (Unit {0})
  pub clear : PointerBuilder → State → State
  -- `struct_list`, with its `FromPointerReader`, `FromPointerBuilder` and `SetPointerBuilder`
  pub get_struct_list : (o : Owned) → PointerReader → Command State Error (StructListReader o)
  pub get_struct_list_mut : (o : Owned) → PointerBuilder → Command State Error (StructListBuilder o)
  pub init_struct_list : (o : Owned) → PointerBuilder → ℕ → State → StructListBuilder o × State
  pub set_struct_list :
      (o : Owned) → PointerBuilder → StructListReader o → Bool → Command State Error (Unit {0})
  -- The elements that `iter` goes through, each an untyped reader.
  pub struct_list_iter : (o : Owned) → StructListReader o → List StructReader
  -- `primitive_list`, in the same way
  pub get_primitive_list :
      (e : Element) → PointerReader → Command State Error (PrimitiveListReader e)
  pub get_primitive_list_mut :
      (e : Element) → PointerBuilder → Command State Error (PrimitiveListBuilder e)
  pub init_primitive_list :
      (e : Element) → PointerBuilder → ℕ → State → PrimitiveListBuilder e × State
  pub set_primitive_list :
      (e : Element) → PointerBuilder → PrimitiveListReader e → Bool → Command State Error (Unit {0})
