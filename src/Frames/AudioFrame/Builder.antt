-- ===== src/Frames/AudioFrame/Builder.antt =====
-- The accessors of `audio_frame::Builder` in rust/src/schema/frames_capnp.rs.
use capnproto_test.Base.{Bool, Command, false, not, ℕ}
use capnproto_test.Layout.{Layout}
use capnproto_test.Layout.Elements.{u16, u32}
use capnproto_test.Struct.{Builder, Reader}
use capnproto_test.Frames.Rational
use capnproto_test.Frames.AudioFrame.{audio_frame}
use capnproto_test.Frames.Rational.{rational}

module _ ⦃R : Layout⦄ where
  unfoldable pub get_num_samples : Builder audio_frame → R.State → ℕ
  get_num_samples b s = R.get_data_field_mut b.builder u32 0 s

  unfoldable pub set_num_samples : Builder audio_frame → ℕ → R.State → R.State
  set_num_samples b value s = R.set_data_field b.builder u32 0 value s

  unfoldable pub get_channels : Builder audio_frame → R.State → ℕ
  get_channels b s = R.get_data_field_mut b.builder u16 2 s

  unfoldable pub set_channels : Builder audio_frame → ℕ → R.State → R.State
  set_channels b value s = R.set_data_field b.builder u16 2 value s

  unfoldable pub get_data : Builder audio_frame → Command R.State R.Error R.DataBuilder
  get_data b = R.get_data_mut (R.get_pointer_field_mut b.builder 0)

  unfoldable pub set_data : Builder audio_frame → R.DataReader → R.State → R.State
  set_data b value s = R.set_data (R.get_pointer_field_mut b.builder 0) value s

  unfoldable pub init_data : Builder audio_frame → ℕ → R.State → R.DataBuilder × R.State
  init_data b size s = R.init_data (R.get_pointer_field_mut b.builder 0) size s

  unfoldable pub has_data : Builder audio_frame → R.State → Bool
  has_data b s = not (R.is_null_mut (R.get_pointer_field_mut b.builder 0) s)

  unfoldable pub get_stream_id : Builder audio_frame → R.State → ℕ
  get_stream_id b s = R.get_data_field_mut b.builder u32 2 s

  unfoldable pub set_stream_id : Builder audio_frame → ℕ → R.State → R.State
  set_stream_id b value s = R.set_data_field b.builder u32 2 value s

  unfoldable pub get_pts : Builder audio_frame → Command R.State R.Error (Builder rational)
  get_pts b = Rational.builder_impls.get_from_pointer (R.get_pointer_field_mut b.builder 1)

  unfoldable pub set_pts :
      Builder audio_frame → Reader rational → Command R.State R.Error (Unit {0})
  set_pts b value =
      Rational.builder_impls.set_pointer_builder (R.get_pointer_field_mut b.builder 1) value false

  unfoldable pub init_pts : Builder audio_frame → R.State → Builder rational × R.State
  init_pts b s = Rational.builder_impls.init_pointer (R.get_pointer_field_mut b.builder 1) 0 s

  unfoldable pub has_pts : Builder audio_frame → R.State → Bool
  has_pts b s = not (R.is_null_mut (R.get_pointer_field_mut b.builder 1) s)
