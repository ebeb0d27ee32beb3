-- ===== src/Frames/AudioFrame/Reader.antt =====
-- The accessors of `audio_frame::Reader` in rust/src/schema/frames_capnp.rs.
use capnproto_test.Base.{Bool, Command, not, ℕ}
use capnproto_test.Layout.{Layout}
use capnproto_test.Layout.Elements.{u16, u32}
use capnproto_test.Struct.{Reader}
use capnproto_test.Frames.Rational
use capnproto_test.Frames.AudioFrame.{audio_frame}
use capnproto_test.Frames.Rational.{rational}

module _ ⦃R : Layout⦄ where
  unfoldable pub get_num_samples : Reader audio_frame → ℕ
  get_num_samples r = R.get_data_field r.reader u32 0

  unfoldable pub get_channels : Reader audio_frame → ℕ
  get_channels r = R.get_data_field r.reader u16 2

  unfoldable pub get_data : Reader audio_frame → Command R.State R.Error R.DataReader
  get_data r = R.get_data (R.get_pointer_field r.reader 0)

  unfoldable pub has_data : Reader audio_frame → Bool
  has_data r = not (R.is_null (R.get_pointer_field r.reader 0))

  unfoldable pub get_stream_id : Reader audio_frame → ℕ
  get_stream_id r = R.get_data_field r.reader u32 2

  unfoldable pub get_pts : Reader audio_frame → Command R.State R.Error (Reader rational)
  get_pts r = Rational.reader_impls.get_from_pointer (R.get_pointer_field r.reader 1)

  unfoldable pub has_pts : Reader audio_frame → Bool
  has_pts r = not (R.is_null (R.get_pointer_field r.reader 1))
