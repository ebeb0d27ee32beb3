-- ===== src/Struct.antt =====
-- Typed structs: the types `Reader`, `Builder` and `Pipeline`, and the trait impls, that
-- rust/src/schema/frames_capnp.rs and calculator_capnp.rs repeat for each struct with only the struct's
-- constants changed. An `Owned` value stands for the struct. A struct's own module names the impls at it.
pub mod Fields
pub mod Pointers
pub mod Made
use capnproto_test.Base.{ℕ, Bool, Command, ◌>>=◌, ok}
use capnproto_test.Layout.{Layout, Owned, StructSize}

module _ ⦃R : Layout⦄ where
  open R use {
    State, Error, StructReader, StructBuilder, PointerReader, PointerBuilder, CapTable, MessageSize,
  }

  pub record Reader (o : Owned) : Type 0 where
    pub reader : StructReader

  pub record Builder (o : Owned) : Type 0 where
    pub builder : StructBuilder

  pub record Pipeline (o : Owned) : Type 0 where
    pub typeless : R.TypelessPipeline

  -- The trait impls and the methods `reborrow` and `total_size` of a struct's `Reader`.
  pub record ReaderImpls (o : Owned) : Type 0 where
    pub type_id : ℕ
    pub new : StructReader → Reader o
    pub get_from_pointer : PointerReader → Command State Error (Reader o)
    pub into_internal_struct_reader : Reader o → StructReader
    pub imbue : Reader o → CapTable → Reader o
    pub reborrow : Reader o → Reader o
    pub total_size : Reader o → Command State Error MessageSize

  -- The trait impls of a struct's `Builder`, and its methods that belong to no field.
  pub record BuilderImpls (o : Owned) : Type 0 where
    pub struct_size : StructSize
    pub type_id : ℕ
    pub new : StructBuilder → Builder o
    pub imbue_mut : Builder o → CapTable → Builder o
    pub init_pointer : PointerBuilder → ℕ → State → Builder o × State
    pub get_from_pointer : PointerBuilder → Command State Error (Builder o)
    pub set_pointer_builder : PointerBuilder → Reader o → Bool → Command State Error (Unit {0})
    pub as_reader : Builder o → State → Reader o
    pub into_reader : Builder o → State → Reader o
    pub reborrow : Builder o → Builder o
    pub reborrow_as_reader : Builder o → State → Reader o
    pub total_size : Builder o → Command State Error MessageSize

module _ ⦃R : Layout⦄ (o : Owned) where
  open R use {
    State, Error, StructReader, StructBuilder, PointerReader, PointerBuilder, CapTable, MessageSize,
  }

  -- `FromStructReader::new`
  abbrev pub reader_new : StructReader → Reader o
  reader_new r = record { reader = r }

  -- `FromPointerReader::get_from_pointer`
  unfoldable pub reader_from_pointer : PointerReader → Command State Error (Reader o)
  reader_from_pointer p = do r ← R.get_struct p; ok (reader_new r)

  abbrev pub reader_impls : ReaderImpls o
  reader_impls = record {
    type_id = o.type_id;
    new = reader_new;
    get_from_pointer = reader_from_pointer;
    into_internal_struct_reader = λ r. r.reader;
    imbue = λ r table. record { reader = R.imbue r.reader table };
    reborrow = λ r. r;
    total_size = λ r. R.total_size r.reader;
  }

  -- `FromStructBuilder::new`
  abbrev pub builder_new : StructBuilder → Builder o
  builder_new b = record { builder = b }

  -- `FromPointerBuilder::init_pointer`
  unfoldable pub builder_init_pointer : PointerBuilder → ℕ → State → Builder o × State
  builder_init_pointer p _ s = let (b, t) = R.init_struct p o.struct_size s in (builder_new b, t)

  -- `FromPointerBuilder::get_from_pointer`
  unfoldable pub builder_from_pointer : PointerBuilder → Command State Error (Builder o)
  builder_from_pointer p = do b ← R.get_struct_mut p o.struct_size; ok (builder_new b)

  -- `into_reader`, which `as_reader` and `reborrow_as_reader` repeat
  unfoldable pub builder_into_reader : Builder o → State → Reader o
  builder_into_reader b s = reader_new (R.into_reader b.builder s)

  abbrev pub builder_impls : BuilderImpls o
  builder_impls = record {
    struct_size = o.struct_size;
    type_id = o.type_id;
    new = builder_new;
    imbue_mut = λ b table. record { builder = R.imbue_mut b.builder table };
    init_pointer = builder_init_pointer;
    get_from_pointer = builder_from_pointer;
    set_pointer_builder = λ p value canonicalize. R.set_struct p value.reader canonicalize;
    as_reader = builder_into_reader;
    into_reader = builder_into_reader;
    reborrow = λ b. b;
    reborrow_as_reader = builder_into_reader;
    total_size = λ b s. R.total_size (R.into_reader b.builder s) s;
  }

  -- `FromTypelessPipeline::new`
  abbrev pub pipeline_new : R.TypelessPipeline → Pipeline o
  pipeline_new t = record { typeless = t }
