-- ===== src/Frames/Frame/Blank.antt =====
-- The structs that the union of `frame` starts with.
use capnproto_test.Base.{[], some, ◌≡◌, false, known, arith}
use capnproto_test.Layout.{Layout}
use capnproto_test.Layout.Elements.{u16, u32}
use capnproto_test.Layout.Laws.{Content, IsLawful}
use capnproto_test.Struct.{Builder}
use capnproto_test.Struct.Pointers.{init_pointer-data, init_pointer-null, init_pointer-bytes}
use capnproto_test.Frames.AudioFrame.{audio_frame}
use capnproto_test.Frames.AudioFrame.Values as AudioValues
use capnproto_test.Frames.VideoFrame.{video_frame}
use capnproto_test.Frames.VideoFrame.Values as VideoValues
use capnproto_test.Frames.VideoFrame.PixelFormats.{rgba, from_u16}
use capnproto_test.Frames.Frame.{frame}
use capnproto_test.Frames.Frame.Builder

abbrev pub blank_audio_frame : AudioValues.Values
blank_audio_frame = record {
  num_samples = 0;
  channels = 0;
  stream_id = 0;
  has_data = false;
  has_pts = false;
  contents = some [];
}

abbrev pub blank_video_frame : VideoValues.Values
blank_video_frame = record {
  width = 0;
  height = 0;
  pixel_format = known rgba;
  stream_id = 0;
  has_data = false;
  has_pts = false;
  contents = some [];
}

module _ ⦃R : Layout⦄ {C : Content R} (L : IsLawful R C) (b : Builder frame) (s : R.State) where
  -- Whatever the message held, the audio frame that `init_audio_frame` gives has zero in each field
  -- and no pointer set.
  pub init_audio_frame-values :
      let made = Builder.init_audio_frame b s in
      AudioValues.values C made.0 made.1 ≡ blank_audio_frame
  unfolding Builder.init_audio_frame AudioValues.values
  init_audio_frame-values =
      let p = R.get_pointer_field_mut b.builder 0 in
      let u = R.set_data_field b.builder u16 0 0 s in
      ground (
        arith,
        init_pointer-data L audio_frame p u u32 0 (omega arith),
        init_pointer-data L audio_frame p u u16 2 (omega arith),
        init_pointer-data L audio_frame p u u32 2 (omega arith),
        init_pointer-null L audio_frame p u 0 (omega arith),
        init_pointer-null L audio_frame p u 1 (omega arith),
        init_pointer-bytes L audio_frame p u 0 (omega arith),
      )

  -- Whatever the message held, the video frame that `init_video_frame` gives has zero in each number,
  -- the pixel format `Rgba` and no pointer set.
  pub init_video_frame-values :
      let made = Builder.init_video_frame b s in
      VideoValues.values C made.0 made.1 ≡ blank_video_frame
  unfolding Builder.init_video_frame VideoValues.values from_u16
  init_video_frame-values =
      let p = R.get_pointer_field_mut b.builder 0 in
      let u = R.set_data_field b.builder u16 0 1 s in
      ground (
        arith,
        init_pointer-data L video_frame p u u32 0 (omega arith),
        init_pointer-data L video_frame p u u32 1 (omega arith),
        init_pointer-data L video_frame p u u16 4 (omega arith),
        init_pointer-data L video_frame p u u32 3 (omega arith),
        init_pointer-null L video_frame p u 0 (omega arith),
        init_pointer-null L video_frame p u 1 (omega arith),
        init_pointer-bytes L video_frame p u 0 (omega arith),
      )
