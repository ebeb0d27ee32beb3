-- ===== src/Frames/VideoFrame.antt =====
-- `video_frame` of rust/src/schema/frames_capnp.rs, lines 347 to 580.
pub mod Reader
pub mod Builder
pub mod PixelFormats
pub mod Values
pub mod Writes
use capnproto_test.Layout.{Layout, Owned}
use capnproto_test.Struct.{BuilderImpls, Pipeline, ReaderImpls}
use capnproto_test.Frames.Rational
use capnproto_test.Struct
use capnproto_test.Frames.Rational.{rational}

-- `video_frame::Owned`, with the constants of `video_frame::_private`
abbrev pub video_frame : Owned
video_frame = record {
  struct_size = record { data_words = 2; pointers = 2 };
  type_id = 0xd0d3_ae08_69b4_d05c;
}

module _ ⦃R : Layout⦄ where
  -- The impls of `video_frame::Reader`, `video_frame::Builder` and `video_frame::Pipeline` that name no field.
  abbrev pub reader_impls : ReaderImpls video_frame
  reader_impls = Struct.reader_impls video_frame

  abbrev pub builder_impls : BuilderImpls video_frame
  builder_impls = Struct.builder_impls video_frame

  abbrev pub pipeline_new : R.TypelessPipeline → Pipeline video_frame
  pipeline_new = Struct.pipeline_new video_frame

  pub pipeline_get_pts : Pipeline video_frame → Pipeline rational
  pipeline_get_pts p = Rational.pipeline_new (R.pipeline_pointer_field p.typeless 1)
