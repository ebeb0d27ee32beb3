-- ===== src/Main/Frames.antt =====
-- `frames_main` of rust/src/main.rs.
pub mod Output
pub mod Printed
use mathlib.Core.List.{head?}
use capnproto_test.Base.{
  ℕ, Option, none, some, List, map, ok, panic, ◌>>=◌, ◌>>◌, question, Result, InSchema, known,
  not_in_schema,
}
use capnproto_test.Layout.{Layout}
use capnproto_test.Struct.{Reader}
use capnproto_test.Frames.AudioFrame.{audio_frame}
use capnproto_test.Frames.AudioFrame.Reader as AudioReader
use capnproto_test.Frames.Rational.Reader as RationalReader
use capnproto_test.Frames.Frame
use capnproto_test.Frames.Frame.{frame}
use capnproto_test.Frames.Frame.Reader as FrameReader
use capnproto_test.Frames.Frame.Which.{Which, WhichReader, audio_frame_case, video_frame_case}
use capnproto_test.Frames.Frames
use capnproto_test.Frames.Frames.Reader as FramesReader
use capnproto_test.Main.World.{
  Line, stream_id, channels, pts, audio_data, not_audio_frame, Files, Run, print, crate, host,
}

module _ ⦃R : Layout⦄ {IoError : Type 0} (files : Files IoError) where
  -- The arm of the `match` for `Ok(AudioFrame(af))`.
  unfoldable pub print_audio_frame : Result R.Error (Reader audio_frame) → Run IoError (Unit {0})
  print_audio_frame af = do
    af ← crate (question af)
    print (stream_id (AudioReader.get_stream_id af))
    print (channels (AudioReader.get_channels af))
    time ← crate (AudioReader.get_pts af)
    print (
        pts (
          files.f64_div (files.f64_from_u32 (RationalReader.get_num time))
            (files.f64_from_u32 (RationalReader.get_den time))))
    bytes ← crate (AudioReader.get_data af)
    print (audio_data bytes)

  -- The `match` on what `which` gives.
  unfoldable pub print_frame : InSchema WhichReader → Run IoError (Unit {0})
  print_frame (known (audio_frame_case af)) = print_audio_frame af
  print_frame (known (video_frame_case vf)) = print not_audio_frame
  print_frame (not_in_schema x) = print not_audio_frame

  -- `.nth(0).expect("wanted at least one frame")`
  unfoldable pub expect_frame : List R.StructReader → Run IoError (Reader frame)
  expect_frame elements = elim (head? (map Frame.reader_impls.new elements)) [
    | none ↦ panic
    | some r ↦ ok r
  ]

  unfoldable pub frames_main : Run IoError (Unit {0})
  frames_main = do
    f ← host (files.open_file "data.bin")
    message ← crate (files.read_message f)
    p ← crate (files.root_pointer message)
    root ← crate (Frames.reader_impls.get_from_pointer p)
    list ← crate (FramesReader.get_frames root)
    r ← expect_frame (R.struct_list_iter frame list)
    w ← crate (FrameReader.which r)
    print_frame w
