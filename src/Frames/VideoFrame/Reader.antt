-- ===== src/Frames/VideoFrame/Reader.antt =====
-- The accessors of `video_frame::Reader` in rust/src/schema/frames_capnp.rs.
use capnproto_test.Base.{Bool, Command, InSchema, not, ℕ}
use capnproto_test.Layout.{Layout}
use capnproto_test.Layout.Elements.{u16, u32}
use capnproto_test.Struct.{Reader}
use capnproto_test.Frames.Rational
use capnproto_test.Frames.Rational.{rational}
use capnproto_test.Frames.VideoFrame.{video_frame}
use capnproto_test.Frames.VideoFrame.PixelFormats.{PixelFormat, from_u16}

module _ ⦃R : Layout⦄ where
  unfoldable pub get_width : Reader video_frame → ℕ
  get_width r = R.get_data_field r.reader u32 0

  unfoldable pub get_height : Reader video_frame → ℕ
  get_height r = R.get_data_field r.reader u32 1

  unfoldable pub get_data : Reader video_frame → Command R.State R.Error R.DataReader
  get_data r = R.get_data (R.get_pointer_field r.reader 0)

  unfoldable pub has_data : Reader video_frame → Bool
  has_data r = not (R.is_null (R.get_pointer_field r.reader 0))

  unfoldable pub get_pixel_format : Reader video_frame → InSchema PixelFormat
  get_pixel_format r = from_u16 (R.get_data_field r.reader u16 4)

  unfoldable pub get_stream_id : Reader video_frame → ℕ
  get_stream_id r = R.get_data_field r.reader u32 3

  unfoldable pub get_pts : Reader video_frame → Command R.State R.Error (Reader rational)
  get_pts r = Rational.reader_impls.get_from_pointer (R.get_pointer_field r.reader 1)

  unfoldable pub has_pts : Reader video_frame → Bool
  has_pts r = not (R.is_null (R.get_pointer_field r.reader 1))
