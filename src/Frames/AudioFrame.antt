-- ===== src/Frames/AudioFrame.antt =====
-- `audio_frame` of rust/src/schema/frames_capnp.rs, lines 147 to 345.
pub mod Reader
pub mod Builder
pub mod Values
pub mod Writes
use capnproto_test.Layout.{Layout, Owned}
use capnproto_test.Struct.{BuilderImpls, Pipeline, ReaderImpls}
use capnproto_test.Frames.Rational
use capnproto_test.Struct
use capnproto_test.Frames.Rational.{rational}

-- `audio_frame::Owned`, with the constants of `audio_frame::_private`
abbrev pub audio_frame : Owned
audio_frame = record {
  struct_size = record { data_words = 2; pointers = 2 };
  type_id = 0xe2c1_8159_5b76_8329;
}

module _ ⦃R : Layout⦄ where
  -- The impls of `audio_frame::Reader`, `audio_frame::Builder` and `audio_frame::Pipeline` that name no field.
  abbrev pub reader_impls : ReaderImpls audio_frame
  reader_impls = Struct.reader_impls audio_frame

  abbrev pub builder_impls : BuilderImpls audio_frame
  builder_impls = Struct.builder_impls audio_frame

  abbrev pub pipeline_new : R.TypelessPipeline → Pipeline audio_frame
  pipeline_new = Struct.pipeline_new audio_frame

  pub pipeline_get_pts : Pipeline audio_frame → Pipeline rational
  pipeline_get_pts p = Rational.pipeline_new (R.pipeline_pointer_field p.typeless 1)
