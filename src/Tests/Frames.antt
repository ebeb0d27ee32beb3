-- ===== src/Tests/Frames.antt =====
-- frames_capnp.rs at concrete structs.
use capnproto_test.Base.{
  ℕ, ◌≤◌, ◌≡◌, refl, ◌↔◌, true, false, List, [], ◌∷◌, ok, final, Result, known, not_in_schema,
  arith,
}
use capnproto_test.Layout.Elements.{u16}
use capnproto_test.Layout.Memory.{Memory, empty}
use capnproto_test.Layout.Memory.Instance.{memory_layout, memory_content}
use capnproto_test.Layout.Memory.Lawful.{memory_layout-IsLawful}
use capnproto_test.Layout.Memory.Separated.{memory_layout-IsSeparated}
use capnproto_test.Struct.{Reader}
use capnproto_test.Struct.Fields.{HasRoom}
use capnproto_test.Tests.Builders.{first, first-HasRoom, filled, reader_of, pointing_reader}
use capnproto_test.Frames.Rational
use capnproto_test.Frames.Rational.{rational}
use capnproto_test.Frames.Rational.Values as RationalValues
use capnproto_test.Frames.Rational.Writes as RationalWrites
use capnproto_test.Frames.AudioFrame
use capnproto_test.Frames.AudioFrame.{audio_frame}
use capnproto_test.Frames.AudioFrame.Values as AudioValues
use capnproto_test.Frames.AudioFrame.Writes as AudioWrites
use capnproto_test.Frames.VideoFrame
use capnproto_test.Frames.VideoFrame.{video_frame}
use capnproto_test.Frames.VideoFrame.Values as VideoValues
use capnproto_test.Frames.VideoFrame.Writes as VideoWrites
use capnproto_test.Frames.VideoFrame.PixelFormats.{rgba}
use capnproto_test.Frames.Frame.{frame, builder_impls}
use capnproto_test.Frames.Frame.Which.{audio_frame_case, video_frame_case}
use capnproto_test.Frames.Frame.Reader as FrameReader
use capnproto_test.Frames.Frame.Builder as FrameBuilder
use capnproto_test.Frames.Frame.WrittenAudio.{written_audio_frame_lem}
use capnproto_test.Frames.Frame.WrittenVideo.{written_video_frame_lem}
use capnproto_test.Frames.Frame.Union.{init_audio_frame_lem, init_video_frame_lem, set_frame_tags}
use capnproto_test.Frames.Frame.Blank.{blank_audio_frame, blank_video_frame}
use capnproto_test.Frames.Frame.Discriminant.{
  which-not_in_schema, has_audio_frame-which, has_video_frame-which,
}

abbrev audio_writes : List AudioWrites.Write
audio_writes =
    AudioWrites.set_channels 2
    ∷ AudioWrites.set_num_samples 1024
    ∷ AudioWrites.init_pts
    ∷ AudioWrites.init_data 3
    ∷ AudioWrites.set_channels 1
    ∷ []

write_audio_frame_example :
    let t = AudioWrites.write_audio_frame (first audio_frame) audio_writes (filled 7) in
    (AudioValues.values memory_content (first audio_frame) t
      ≡ AudioWrites.apply_all memory_content audio_writes
          (AudioValues.values memory_content (first audio_frame) (filled 7)))
    × (AudioValues.read_values memory_content
          (AudioFrame.builder_impls.into_reader (first audio_frame) t)
          t
        ≡ AudioWrites.apply_all memory_content audio_writes
            (AudioValues.values memory_content (first audio_frame) (filled 7)))
    × AudioWrites.ShowsPts memory_content
        (first audio_frame)
        (AudioWrites.any_makes_pts audio_writes)
        (filled 7)
        t
write_audio_frame_example =
    AudioWrites.write_audio_frame_lem memory_layout-IsLawful (first audio_frame)
      (first-HasRoom audio_frame) audio_writes (filled 7)
      (omega arith, (omega arith, (tt, (omega arith, (omega arith, tt)))))

abbrev video_writes : List VideoWrites.Write
video_writes =
    VideoWrites.set_width 640
    ∷ VideoWrites.set_height 480
    ∷ VideoWrites.set_pixel_format rgba
    ∷ VideoWrites.set_data (1 ∷ 2 ∷ [])
    ∷ []

write_video_frame_example :
    let t = VideoWrites.write_video_frame (first video_frame) video_writes (filled 7) in
    (VideoValues.values memory_content (first video_frame) t
      ≡ VideoWrites.apply_all memory_content video_writes
          (VideoValues.values memory_content (first video_frame) (filled 7)))
    × (VideoValues.read_values memory_content
          (VideoFrame.builder_impls.into_reader (first video_frame) t)
          t
        ≡ VideoWrites.apply_all memory_content video_writes
            (VideoValues.values memory_content (first video_frame) (filled 7)))
    × VideoWrites.ShowsPts memory_content
        (first video_frame)
        (VideoWrites.any_makes_pts video_writes)
        (filled 7)
        t
write_video_frame_example =
    VideoWrites.write_video_frame_lem memory_layout-IsLawful (first video_frame)
      (first-HasRoom video_frame) video_writes (filled 7)
      (omega arith, (omega arith, (tt, (omega arith, tt))))

abbrev rational_writes : List RationalWrites.Write
rational_writes = RationalWrites.set_num 1001 ∷ RationalWrites.set_den 30000 ∷ []

write_rational_example :
    let t = RationalWrites.write_rational (first rational) rational_writes (filled 7) in
    (RationalValues.values (first rational) t
      ≡ RationalWrites.apply_all rational_writes
          (RationalValues.values (first rational) (filled 7)))
    × (RationalValues.read_values (Rational.builder_impls.into_reader (first rational) t)
        ≡ RationalWrites.apply_all rational_writes
            (RationalValues.values (first rational) (filled 7)))
write_rational_example =
    RationalWrites.write_rational_lem memory_layout-IsLawful (first rational)
      (first-HasRoom rational) rational_writes (filled 7) (omega arith, (omega arith, tt))

init_audio_frame_example :
    let made = FrameBuilder.init_audio_frame (first frame) (filled 1) in
    HasRoom memory_content made.0
    × (FrameBuilder.which (first frame) made.1
        ≡ ok (known (audio_frame_case (Result.ok made.0))) made.1)
    × (FrameReader.which (builder_impls.into_reader (first frame) made.1) made.1
        ≡ ok
            (known
              (audio_frame_case (Result.ok (AudioFrame.builder_impls.into_reader made.0 made.1))))
            made.1)
    × (FrameBuilder.has_audio_frame (first frame) made.1 ≡ true)
    × (FrameBuilder.has_video_frame (first frame) made.1 ≡ false)
init_audio_frame_example =
    init_audio_frame_lem memory_layout-IsLawful (first frame) (first-HasRoom frame) (filled 1)

init_video_frame_example :
    let made = FrameBuilder.init_video_frame (first frame) (filled 3) in
    HasRoom memory_content made.0
    × (FrameBuilder.which (first frame) made.1
        ≡ ok (known (video_frame_case (Result.ok made.0))) made.1)
    × (FrameReader.which (builder_impls.into_reader (first frame) made.1) made.1
        ≡ ok
            (known
              (video_frame_case (Result.ok (VideoFrame.builder_impls.into_reader made.0 made.1))))
            made.1)
    × (FrameBuilder.has_video_frame (first frame) made.1 ≡ true)
    × (FrameBuilder.has_audio_frame (first frame) made.1 ≡ false)
init_video_frame_example =
    init_video_frame_lem memory_layout-IsLawful (first frame) (first-HasRoom frame) (filled 3)

set_frame_tags_example :
    let t =
      final (FrameBuilder.set_audio_frame (first frame) (reader_of audio_frame 5) (filled 1)) in
    let u =
      final (FrameBuilder.set_video_frame (first frame) (reader_of video_frame 6) (filled 1)) in
    (FrameBuilder.has_video_frame (first frame) t ≡ false)
    × (FrameBuilder.has_audio_frame (first frame) u ≡ false)
    × ((x : ℕ)
        → ¬ (
            FrameReader.which (builder_impls.into_reader (first frame) t) t
            ≡ ok (not_in_schema x) t))
    × ((x : ℕ)
        → ¬ (
            FrameReader.which (builder_impls.into_reader (first frame) u) u
            ≡ ok (not_in_schema x) u))
set_frame_tags_example =
    set_frame_tags memory_layout-IsLawful (first frame) (first-HasRoom frame) (filled 1)
      (reader_of audio_frame 5) (reader_of video_frame 6)

which-not_in_schema_example :
    (FrameReader.which (reader_of frame 2) empty
      ≡ ok (not_in_schema (memory_layout.get_data_field (reader_of frame 2).reader u16 0)) empty)
    ↔ (2 ≤ memory_layout.get_data_field (reader_of frame 2).reader u16 0)
which-not_in_schema_example = which-not_in_schema memory_layout-IsLawful (reader_of frame 2) empty

tests_audio : FrameReader.has_audio_frame (pointing_reader frame 0) ≡ true
unfolding FrameReader.has_audio_frame capnproto_test.Layout.Memory.Words.read
tests_audio = refl

tests_video : FrameReader.has_video_frame (pointing_reader frame 1) ≡ true
unfolding FrameReader.has_video_frame capnproto_test.Layout.Memory.Words.read
tests_video = refl

has_audio_frame-which_example :
    (FrameReader.has_video_frame (pointing_reader frame 0) ≡ false)
    × (res : Result memory_layout.Error (Reader audio_frame)) × (t : Memory) × (FrameReader.which
          (pointing_reader frame 0)
          empty
        ≡ ok (known (audio_frame_case res)) t)
has_audio_frame-which_example =
    has_audio_frame-which memory_layout-IsLawful (pointing_reader frame 0) empty tests_audio

has_video_frame-which_example :
    (FrameReader.has_audio_frame (pointing_reader frame 1) ≡ false)
    × (res : Result memory_layout.Error (Reader video_frame)) × (t : Memory) × (FrameReader.which
          (pointing_reader frame 1)
          empty
        ≡ ok (known (video_frame_case res)) t)
has_video_frame-which_example =
    has_video_frame-which memory_layout-IsLawful (pointing_reader frame 1) empty tests_video

written_audio_frame_example :
    let made = FrameBuilder.init_audio_frame (first frame) (filled 7) in
    let t = AudioWrites.write_audio_frame made.0 audio_writes made.1 in
    let r = AudioFrame.builder_impls.into_reader made.0 t in
    (FrameReader.which (builder_impls.into_reader (first frame) t) t
      ≡ ok (known (audio_frame_case (Result.ok r))) t)
    × (AudioValues.read_values memory_content r t
        ≡ AudioWrites.apply_all memory_content audio_writes blank_audio_frame)
    × AudioWrites.ShowsPts memory_content made.0 (AudioWrites.any_makes_pts audio_writes) made.1 t
written_audio_frame_example =
    written_audio_frame_lem memory_layout-IsLawful memory_layout-IsSeparated (first frame)
      (first-HasRoom frame) (filled 7) (omega arith) audio_writes
      (omega arith, (omega arith, (tt, (omega arith, (omega arith, tt)))))

written_video_frame_example :
    let made = FrameBuilder.init_video_frame (first frame) (filled 7) in
    let t = VideoWrites.write_video_frame made.0 video_writes made.1 in
    let r = VideoFrame.builder_impls.into_reader made.0 t in
    (FrameReader.which (builder_impls.into_reader (first frame) t) t
      ≡ ok (known (video_frame_case (Result.ok r))) t)
    × (VideoValues.read_values memory_content r t
        ≡ VideoWrites.apply_all memory_content video_writes blank_video_frame)
    × VideoWrites.ShowsPts memory_content made.0 (VideoWrites.any_makes_pts video_writes) made.1 t
written_video_frame_example =
    written_video_frame_lem memory_layout-IsLawful memory_layout-IsSeparated (first frame)
      (first-HasRoom frame) (filled 7) (omega arith) video_writes
      (omega arith, (omega arith, (tt, (omega arith, tt))))
