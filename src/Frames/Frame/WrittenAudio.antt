-- ===== src/Frames/Frame/WrittenAudio.antt =====
-- An audio frame that is made in a frame and written to, read back through the frame.
use capnproto_test.Base.{◌≡◌, refl, ◌∙◌, ap, List, [], ◌∷◌, ok, Result, known, arith}
use capnproto_test.Layout.{Layout}
use capnproto_test.Layout.Elements.{u16, u32}
use capnproto_test.Layout.Laws.{Content, IsLawful}
use capnproto_test.Layout.Separation.{Structs, Survives, IsSeparated, Survives-trans}
use capnproto_test.Struct.{Builder, builder_init_pointer}
use capnproto_test.Struct.Fields.{HasRoom}
use capnproto_test.Frames.Rational.{rational}
use capnproto_test.Frames.AudioFrame
use capnproto_test.Frames.AudioFrame.{audio_frame}
use capnproto_test.Frames.AudioFrame.Builder
use capnproto_test.Frames.AudioFrame.Values.{read_values}
use capnproto_test.Frames.AudioFrame.Writes
use capnproto_test.Frames.AudioFrame.Writes.{
  Write, IsSmall, AllSmall, any_makes_pts, ShowsPts, apply_all, write, write_audio_frame,
  write_audio_frame_lem,
}
use capnproto_test.Frames.Frame.{frame, builder_impls}
use capnproto_test.Frames.Frame.Which.{audio_frame_case}
use capnproto_test.Frames.Frame.Reader as FrameReader
use capnproto_test.Frames.Frame.Builder as FrameBuilder
use capnproto_test.Frames.Frame.Blank.{blank_audio_frame, init_audio_frame-values}
use capnproto_test.Frames.Frame.Union.{read-audio_frame, init_audio_frame-Holds}

module _ ⦃R : Layout⦄ {C : Content R} {D : Structs R} (L : IsLawful R C) (S : IsSeparated R C D)
    (b : Builder frame) where
  module _ (c : Builder audio_frame) (room : HasRoom C c) where
    write-Survives :
        (w : Write) (s : R.State)
        → IsSmall C w
        → D.Live b.builder s
        → D.Distinct c.builder b.builder
        → Survives R C D b.builder s (write c w s)
    unfolding write Builder.set_num_samples Builder.set_channels Builder.set_stream_id
        Builder.set_data Builder.init_data Builder.init_pts builder_init_pointer
    write-Survives (Writes.set_num_samples v) s small live apart =
        S.set-Survives b.builder c.builder u32 0 v s live apart (omega (arith, room.data_room))
    write-Survives (Writes.set_channels v) s small live apart =
        S.set-Survives b.builder c.builder u16 2 v s live apart (omega (arith, room.data_room))
    write-Survives (Writes.set_stream_id v) s small live apart =
        S.set-Survives b.builder c.builder u32 2 v s live apart (omega (arith, room.data_room))
    write-Survives (Writes.set_data d) s small live apart =
        S.set_data-Survives b.builder c.builder 0 d s live apart (omega (arith, room.pointer_room))
          small
    write-Survives (Writes.init_data n) s small live apart =
        S.init_data-Survives b.builder c.builder 0 n s live apart (omega (arith, room.pointer_room))
          small
    write-Survives Writes.init_pts s small live apart =
        S.init_struct-Survives b.builder c.builder 1 rational.struct_size s live apart
          (omega (arith, room.pointer_room))

    write_audio_frame-Survives :
        (ws : List Write) (s : R.State)
        → AllSmall C ws
        → D.Live b.builder s
        → D.Distinct c.builder b.builder
        → Survives R C D b.builder s (write_audio_frame c ws s)
    unfolding write_audio_frame
    write_audio_frame-Survives [] s small live apart = record {
      live = live;
      same_data = λ e i fits. refl;
      same_pointers = λ i. refl;
    }
    write_audio_frame-Survives (w ∷ ws) s (h, small) live apart =
        let step = write-Survives w s h live apart in
        Survives-trans step (write_audio_frame-Survives ws _ small step.live apart)

  module _ (room : HasRoom C b) (s : R.State) (live : D.Live b.builder s) where
    init_audio_frame-Live : D.Live b.builder (FrameBuilder.init_audio_frame b s).1
    unfolding FrameBuilder.init_audio_frame builder_init_pointer
    init_audio_frame-Live =
        S.init_struct-Live b.builder 0 audio_frame.struct_size _
          (S.set-Live b.builder u16 0 0 s live (omega (arith, room.data_room)))
          (omega (arith, room.pointer_room))

    init_audio_frame-Distinct : D.Distinct (FrameBuilder.init_audio_frame b s).0.builder b.builder
    unfolding FrameBuilder.init_audio_frame builder_init_pointer
    init_audio_frame-Distinct =
        S.init_struct-Distinct b.builder 0 audio_frame.struct_size _
          (S.set-Live b.builder u16 0 0 s live (omega (arith, room.data_room)))
          (omega (arith, room.pointer_room))

    -- Where a frame with room is a struct of the message, an audio frame that `init_audio_frame` makes
    -- in it, written to by any sequence of calls of its setters and initialisers, except `set_pts`,
    -- with numbers that fit their fields and fewer than 2 ^ 29 bytes, is what `which` gives of a
    -- reader of the frame; its numbers, its `has` tests and the bytes that `get_data` gives are those
    -- that the same updates make of a blank record; and where `init_pts` was called, `get_pts` of its
    -- builder and of its reader gives the same rational, of just the size of the schema, while
    -- otherwise its pointer holds what it held.
    pub written_audio_frame_lem :
        (ws : List Write)
        → AllSmall C ws
        → let made = FrameBuilder.init_audio_frame b s in
          let t = write_audio_frame made.0 ws made.1 in
          let r = AudioFrame.builder_impls.into_reader made.0 t in
          (FrameReader.which (builder_impls.into_reader b t) t
            ≡ ok (known (audio_frame_case (Result.ok r))) t)
          × (read_values C r t ≡ apply_all C ws blank_audio_frame)
          × ShowsPts C made.0 (any_makes_pts ws) made.1 t
    written_audio_frame_lem ws small =
        let made = FrameBuilder.init_audio_frame b s in
        let held = init_audio_frame-Holds L b room s in
        let (e, e', shows) = write_audio_frame_lem L made.0 held.c_room ws made.1 small in
        let kept =
          write_audio_frame-Survives made.0 held.c_room ws made.1 small init_audio_frame-Live
            init_audio_frame-Distinct in
        (
          read-audio_frame L (record {
            room = room;
            c_room = held.c_room;
            tag = kept.same_data u16 0 (omega (arith, room.data_room)) ∙ held.tag;
            here = kept.same_pointers 0 ∙ held.here;
          }),
          e' ∙ ap (apply_all C ws) (init_audio_frame-values L b s),
          shows,
        )
