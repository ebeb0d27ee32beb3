-- ===== src/Frames/Frame/WrittenVideo.antt =====
-- A video frame that is made in a frame and written to, read back through the frame.
use capnproto_test.Base.{◌≡◌, refl, ◌∙◌, ap, List, [], ◌∷◌, ok, Result, known, arith}
use capnproto_test.Layout.{Layout}
use capnproto_test.Layout.Elements.{u16, u32}
use capnproto_test.Layout.Laws.{Content, IsLawful}
use capnproto_test.Layout.Separation.{Structs, Survives, IsSeparated, Survives-trans}
use capnproto_test.Struct.{Builder, builder_init_pointer}
use capnproto_test.Struct.Fields.{HasRoom}
use capnproto_test.Frames.Rational.{rational}
use capnproto_test.Frames.VideoFrame.PixelFormats.{to_u16}
use capnproto_test.Frames.VideoFrame
use capnproto_test.Frames.VideoFrame.{video_frame}
use capnproto_test.Frames.VideoFrame.Builder
use capnproto_test.Frames.VideoFrame.Values.{read_values}
use capnproto_test.Frames.VideoFrame.Writes
use capnproto_test.Frames.VideoFrame.Writes.{
  Write, IsSmall, AllSmall, any_makes_pts, ShowsPts, apply_all, write, write_video_frame,
  write_video_frame_lem,
}
use capnproto_test.Frames.Frame.{frame, builder_impls}
use capnproto_test.Frames.Frame.Which.{video_frame_case}
use capnproto_test.Frames.Frame.Reader as FrameReader
use capnproto_test.Frames.Frame.Builder as FrameBuilder
use capnproto_test.Frames.Frame.Blank.{blank_video_frame, init_video_frame-values}
use capnproto_test.Frames.Frame.Union.{read-video_frame, init_video_frame-Holds}

module _ ⦃R : Layout⦄ {C : Content R} {D : Structs R} (L : IsLawful R C) (S : IsSeparated R C D)
    (b : Builder frame) where
  module _ (c : Builder video_frame) (room : HasRoom C c) where
    write-Survives :
        (w : Write) (s : R.State)
        → IsSmall C w
        → D.Live b.builder s
        → D.Distinct c.builder b.builder
        → Survives R C D b.builder s (write c w s)
    unfolding write Builder.set_width Builder.set_height Builder.set_pixel_format
        Builder.set_stream_id Builder.set_data Builder.init_data Builder.init_pts
        builder_init_pointer
    write-Survives (Writes.set_width v) s small live apart =
        S.set-Survives b.builder c.builder u32 0 v s live apart (omega (arith, room.data_room))
    write-Survives (Writes.set_height v) s small live apart =
        S.set-Survives b.builder c.builder u32 1 v s live apart (omega (arith, room.data_room))
    write-Survives (Writes.set_pixel_format v) s small live apart =
        S.set-Survives b.builder c.builder u16 4 (to_u16 v) s live apart
          (omega (arith, room.data_room))
    write-Survives (Writes.set_stream_id v) s small live apart =
        S.set-Survives b.builder c.builder u32 3 v s live apart (omega (arith, room.data_room))
    write-Survives (Writes.set_data d) s small live apart =
        S.set_data-Survives b.builder c.builder 0 d s live apart (omega (arith, room.pointer_room))
          small
    write-Survives (Writes.init_data n) s small live apart =
        S.init_data-Survives b.builder c.builder 0 n s live apart (omega (arith, room.pointer_room))
          small
    write-Survives Writes.init_pts s small live apart =
        S.init_struct-Survives b.builder c.builder 1 rational.struct_size s live apart
          (omega (arith, room.pointer_room))

    write_video_frame-Survives :
        (ws : List Write) (s : R.State)
        → AllSmall C ws
        → D.Live b.builder s
        → D.Distinct c.builder b.builder
        → Survives R C D b.builder s (write_video_frame c ws s)
    unfolding write_video_frame
    write_video_frame-Survives [] s small live apart = record {
      live = live;
      same_data = λ e i fits. refl;
      same_pointers = λ i. refl;
    }
    write_video_frame-Survives (w ∷ ws) s (h, small) live apart =
        let step = write-Survives w s h live apart in
        Survives-trans step (write_video_frame-Survives ws _ small step.live apart)

  module _ (room : HasRoom C b) (s : R.State) (live : D.Live b.builder s) where
    init_video_frame-Live : D.Live b.builder (FrameBuilder.init_video_frame b s).1
    unfolding FrameBuilder.init_video_frame builder_init_pointer
    init_video_frame-Live =
        S.init_struct-Live b.builder 0 video_frame.struct_size _
          (S.set-Live b.builder u16 0 1 s live (omega (arith, room.data_room)))
          (omega (arith, room.pointer_room))

    init_video_frame-Distinct : D.Distinct (FrameBuilder.init_video_frame b s).0.builder b.builder
    unfolding FrameBuilder.init_video_frame builder_init_pointer
    init_video_frame-Distinct =
        S.init_struct-Distinct b.builder 0 video_frame.struct_size _
          (S.set-Live b.builder u16 0 1 s live (omega (arith, room.data_room)))
          (omega (arith, room.pointer_room))

    -- Where a frame with room is a struct of the message, a video frame that `init_video_frame` makes
    -- in it, written to by any sequence of calls of its setters and initialisers, except `set_pts`,
    -- with numbers that fit their fields and fewer than 2 ^ 29 bytes, is what `which` gives of a
    -- reader of the frame; its numbers, its `has` tests and the bytes that `get_data` gives are those
    -- that the same updates make of a blank record; and where `init_pts` was called, `get_pts` of its
    -- builder and of its reader gives the same rational, of just the size of the schema, while
    -- otherwise its pointer holds what it held.
    pub written_video_frame_lem :
        (ws : List Write)
        → AllSmall C ws
        → let made = FrameBuilder.init_video_frame b s in
          let t = write_video_frame made.0 ws made.1 in
          let r = VideoFrame.builder_impls.into_reader made.0 t in
          (FrameReader.which (builder_impls.into_reader b t) t
            ≡ ok (known (video_frame_case (Result.ok r))) t)
          × (read_values C r t ≡ apply_all C ws blank_video_frame)
          × ShowsPts C made.0 (any_makes_pts ws) made.1 t
    written_video_frame_lem ws small =
        let made = FrameBuilder.init_video_frame b s in
        let held = init_video_frame-Holds L b room s in
        let (e, e', shows) = write_video_frame_lem L made.0 held.c_room ws made.1 small in
        let kept =
          write_video_frame-Survives made.0 held.c_room ws made.1 small init_video_frame-Live
            init_video_frame-Distinct in
        (
          read-video_frame L (record {
            room = room;
            c_room = held.c_room;
            tag = kept.same_data u16 0 (omega (arith, room.data_room)) ∙ held.tag;
            here = kept.same_pointers 0 ∙ held.here;
          }),
          e' ∙ ap (apply_all C ws) (init_video_frame-values L b s),
          shows,
        )
