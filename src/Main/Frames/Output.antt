-- ===== src/Main/Frames/Output.antt =====
-- What `frames_main` prints, on every branch.
use capnproto_test.Base.{
  List, [], ◌∷◌, and_then, ◌≢◌, Result, InSchema, known, not_in_schema, arith,
}
use capnproto_test.Layout.{Layout}
use capnproto_test.Struct.{Reader}
use capnproto_test.Frames.AudioFrame.{audio_frame}
use capnproto_test.Frames.Frame.Which.{WhichReader, audio_frame_case, video_frame_case}
use capnproto_test.Frames.Frame
use capnproto_test.Frames.Frame.{frame}
use capnproto_test.Main.World.{Files, World, Printed, Run}
use capnproto_test.Main.Logs.{
  idle, counted, timed, done, FramesLog, nothing, stream, count, time, bytes, other, Stops,
  finished, panicked,
}
use capnproto_test.Main.Logs.Rules.{Stops-crate, Stops-host}
use capnproto_test.Main.Frames.{print_audio_frame, print_frame, expect_frame, frames_main}

idle-ne_done : idle ≢ done
idle-ne_done = ground arith

counted-ne_done : counted ≢ done
counted-ne_done = ground arith

timed-ne_done : timed ≢ done
timed-ne_done = ground arith

module _ ⦃R : Layout⦄ {IoError : Type 0} (files : Files IoError) (before : List Printed)
    (w : World) where
  print_audio_frame-Stops :
      (af : Result R.Error (Reader audio_frame))
      → FramesLog before idle w.lines
      → Stops (FramesLog before) (print_audio_frame files af w)
  unfolding print_audio_frame
  print_audio_frame-Stops af log = Stops-crate idle-ne_done _ log _ _ λ r q.
      Stops-crate counted-ne_done _ (count _ (stream _ log)) _ _ λ t s.
        Stops-crate timed-ne_done _ (time _ (count _ (stream _ log))) _ _
          λ d t. finished (bytes d (time _ (count _ (stream _ log))))

  print_frame-Stops :
      (x : InSchema WhichReader)
      → FramesLog before idle w.lines
      → Stops (FramesLog before) (print_frame files x w)
  unfolding print_frame
  print_frame-Stops (known (audio_frame_case af)) log = print_audio_frame-Stops af log
  print_frame-Stops (known (video_frame_case vf)) log = finished (other log)
  print_frame-Stops (not_in_schema x) log = finished (other log)

  expect_frame-Stops :
      (elements : List R.StructReader) (k : Reader frame → Run IoError (Unit {0}))
      → FramesLog before idle w.lines
      → ((r : Reader frame) → Stops (FramesLog before) (k r w))
      → Stops (FramesLog before) (and_then (expect_frame files elements w) k)
  unfolding expect_frame
  expect_frame-Stops [] k log next = panicked idle-ne_done log
  expect_frame-Stops (r ∷ elements) k log next = next (Frame.reader_impls.new r)

module _ ⦃R : Layout⦄ {IoError : Type 0} (files : Files IoError) (w : World) where
  -- `frames_main` returns `Ok` only when it has printed the stream, the channels, the time and the
  -- bytes in this order, or only the line that the frame is no audio frame; it stops by an error or a
  -- panic only after a part of the first four lines or before any line.
  pub frames_main-Stops : Stops (FramesLog w.lines) (frames_main files w)
  unfolding frames_main
  frames_main-Stops =
      let log = nothing in
      Stops-host idle-ne_done w log _ _ λ f s. Stops-crate idle-ne_done _ log _ _ λ message s.
        Stops-crate idle-ne_done _ log _ _ λ p s. Stops-crate idle-ne_done _ log _ _ λ root s.
          Stops-crate idle-ne_done _ log _ _ λ list s.
            expect_frame-Stops files w.lines _ _ _ log
              λ r. Stops-crate idle-ne_done _ log _ _ λ x s. print_frame-Stops files w.lines _ x log
