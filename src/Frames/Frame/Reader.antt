-- ===== src/Frames/Frame/Reader.antt =====
-- The accessors of `frame::Reader` in rust/src/schema/frames_capnp.rs.
use capnproto_test.Base.{
  Bool, Command, InSchema, attempt, false, if◌then◌else◌, known, not, not_in_schema, ok, ◌==◌,
  ◌>>=◌,
}
use capnproto_test.Layout.{Layout}
use capnproto_test.Layout.Elements.{u16}
use capnproto_test.Struct.{Reader}
use capnproto_test.Frames.AudioFrame
use capnproto_test.Frames.VideoFrame
use capnproto_test.Frames.Frame.{frame}
use capnproto_test.Frames.Frame.Which.{WhichReader, audio_frame_case, video_frame_case}

module _ ⦃R : Layout⦄ where
  unfoldable pub has_audio_frame : Reader frame → Bool
  has_audio_frame r =
      if not (R.get_data_field r.reader u16 0 == 0)
      then false
      else not (R.is_null (R.get_pointer_field r.reader 0))

  unfoldable pub has_video_frame : Reader frame → Bool
  has_video_frame r =
      if not (R.get_data_field r.reader u16 0 == 1)
      then false
      else not (R.is_null (R.get_pointer_field r.reader 0))

  unfoldable pub which : Reader frame → Command R.State R.Error (InSchema WhichReader)
  which r =
      let x = R.get_data_field r.reader u16 0 in
      if x == 0
      then (do
        a ← attempt (AudioFrame.reader_impls.get_from_pointer (R.get_pointer_field r.reader 0))
        ok (known (audio_frame_case a)))
      else if x == 1
      then (do
        a ← attempt (VideoFrame.reader_impls.get_from_pointer (R.get_pointer_field r.reader 0))
        ok (known (video_frame_case a)))
      else ok (not_in_schema x)
