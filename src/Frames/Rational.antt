-- ===== src/Frames/Rational.antt =====
-- `rational` of rust/src/schema/frames_capnp.rs, lines 6 to 145.
pub mod Reader
pub mod Builder
pub mod Values
pub mod Writes
use capnproto_test.Layout.{Layout, Owned}
use capnproto_test.Struct.{BuilderImpls, Pipeline, ReaderImpls}
use capnproto_test.Struct

-- `rational::Owned`, with the constants of `rational::_private`
abbrev pub rational : Owned
rational = record {
  struct_size = record { data_words = 1; pointers = 0 };
  type_id = 0xe600_9259_93c2_3cf3;
}

module _ ⦃R : Layout⦄ where
  -- The impls of `rational::Reader`, `rational::Builder` and `rational::Pipeline` that name no field.
  abbrev pub reader_impls : ReaderImpls rational
  reader_impls = Struct.reader_impls rational

  abbrev pub builder_impls : BuilderImpls rational
  builder_impls = Struct.builder_impls rational

  abbrev pub pipeline_new : R.TypelessPipeline → Pipeline rational
  pipeline_new = Struct.pipeline_new rational
