-- ===== src/Frames/Frame.antt =====
-- `frame` of rust/src/schema/frames_capnp.rs, lines 582 to 773.
pub mod Reader
pub mod Builder
pub mod Which
pub mod Union
pub mod Blank
pub mod WrittenAudio
pub mod WrittenVideo
pub mod Discriminant
use capnproto_test.Layout.{Layout, Owned}
use capnproto_test.Struct.{BuilderImpls, Pipeline, ReaderImpls}
use capnproto_test.Struct

-- `frame::Owned`, with the constants of `frame::_private`
abbrev pub frame : Owned
frame = record {
  struct_size = record { data_words = 1; pointers = 1 };
  type_id = 0x9a59_9bfe_7713_2e2d;
}

module _ ⦃R : Layout⦄ where
  -- The impls of `frame::Reader`, `frame::Builder` and `frame::Pipeline` that name no field.
  abbrev pub reader_impls : ReaderImpls frame
  reader_impls = Struct.reader_impls frame

  abbrev pub builder_impls : BuilderImpls frame
  builder_impls = Struct.builder_impls frame

  abbrev pub pipeline_new : R.TypelessPipeline → Pipeline frame
  pipeline_new = Struct.pipeline_new frame
