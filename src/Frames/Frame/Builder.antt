-- ===== src/Frames/Frame/Builder.antt =====
-- The accessors of `frame::Builder` in rust/src/schema/frames_capnp.rs.
use capnproto_test.Base.{
  Bool, Command, InSchema, attempt, false, if◌then◌else◌, known, not, not_in_schema, ok, ℕ, ◌==◌,
  ◌>>=◌,
}
use capnproto_test.Layout.{Layout}
use capnproto_test.Layout.Elements.{u16}
use capnproto_test.Struct.{Builder, Reader}
use capnproto_test.Frames.AudioFrame
use capnproto_test.Frames.VideoFrame
use capnproto_test.Frames.AudioFrame.{audio_frame}
use capnproto_test.Frames.Frame.{frame}
use capnproto_test.Frames.Frame.Which.{WhichBuilder, audio_frame_case, video_frame_case}
use capnproto_test.Frames.VideoFrame.{video_frame}

module _ ⦃R : Layout⦄ where
  unfoldable pub set_audio_frame :
      Builder frame → Reader audio_frame → Command R.State R.Error (Unit {0})
  set_audio_frame b value s =
      let t = R.set_data_field b.builder u16 0 0 s in
      AudioFrame.builder_impls.set_pointer_builder (R.get_pointer_field_mut b.builder 0) value false
        t

  unfoldable pub init_audio_frame : Builder frame → R.State → Builder audio_frame × R.State
  init_audio_frame b s =
      let t = R.set_data_field b.builder u16 0 0 s in
      AudioFrame.builder_impls.init_pointer (R.get_pointer_field_mut b.builder 0) 0 t

  unfoldable pub has_audio_frame : Builder frame → R.State → Bool
  has_audio_frame b s =
      if not (R.get_data_field_mut b.builder u16 0 s == 0)
      then false
      else not (R.is_null_mut (R.get_pointer_field_mut b.builder 0) s)

  unfoldable pub set_video_frame :
      Builder frame → Reader video_frame → Command R.State R.Error (Unit {0})
  set_video_frame b value s =
      let t = R.set_data_field b.builder u16 0 1 s in
      VideoFrame.builder_impls.set_pointer_builder (R.get_pointer_field_mut b.builder 0) value false
        t

  unfoldable pub init_video_frame : Builder frame → R.State → Builder video_frame × R.State
  init_video_frame b s =
      let t = R.set_data_field b.builder u16 0 1 s in
      VideoFrame.builder_impls.init_pointer (R.get_pointer_field_mut b.builder 0) 0 t

  unfoldable pub has_video_frame : Builder frame → R.State → Bool
  has_video_frame b s =
      if not (R.get_data_field_mut b.builder u16 0 s == 1)
      then false
      else not (R.is_null_mut (R.get_pointer_field_mut b.builder 0) s)

  unfoldable pub which_of : Builder frame → ℕ → Command R.State R.Error (InSchema WhichBuilder)
  which_of b x =
      if x == 0
      then (do
        a ←
            attempt
              (AudioFrame.builder_impls.get_from_pointer (R.get_pointer_field_mut b.builder 0))
        ok (known (audio_frame_case a)))
      else if x == 1
      then (do
        a ←
            attempt
              (VideoFrame.builder_impls.get_from_pointer (R.get_pointer_field_mut b.builder 0))
        ok (known (video_frame_case a)))
      else ok (not_in_schema x)

  unfoldable pub which : Builder frame → Command R.State R.Error (InSchema WhichBuilder)
  unfolding which_of
  which b s = which_of b (R.get_data_field_mut b.builder u16 0 s) s
