-- ===== src/Frames/Frames.antt =====
-- `frames` of rust/src/schema/frames_capnp.rs, lines 775 to 912.
pub mod Reader
pub mod Builder
use capnproto_test.Layout.{Layout, Owned}
use capnproto_test.Struct.{BuilderImpls, Pipeline, ReaderImpls}
use capnproto_test.Struct

-- `frames::Owned`, with the constants of `frames::_private`
abbrev pub frames : Owned
frames = record {
  struct_size = record { data_words = 0; pointers = 1 };
  type_id = 0x8983_a81a_ef33_35c6;
}

module _ ⦃R : Layout⦄ where
  -- The impls of `frames::Reader`, `frames::Builder` and `frames::Pipeline` that name no field.
  abbrev pub reader_impls : ReaderImpls frames
  reader_impls = Struct.reader_impls frames

  abbrev pub builder_impls : BuilderImpls frames
  builder_impls = Struct.builder_impls frames

  abbrev pub pipeline_new : R.TypelessPipeline → Pipeline frames
  pipeline_new = Struct.pipeline_new frames
