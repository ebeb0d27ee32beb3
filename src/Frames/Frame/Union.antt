-- ===== src/Frames/Frame/Union.antt =====
-- The union of `frame`: what its setters make of it, and what its two readers see.
use capnproto_test.Base.{ℕ, ◌≡◌, ◌∙◌, true, false, ok, final, Result, known, not_in_schema, arith}
use capnproto_test.Layout.{Layout, Owned}
use capnproto_test.Layout.Elements.{u16}
use capnproto_test.Layout.Laws.{Content, IsLawful, structure}
use capnproto_test.Struct.{Reader, Builder, builder_into_reader}
use capnproto_test.Struct.Fields.{HasRoom, get-set, read-into_reader, kept_field}
use capnproto_test.Struct.Pointers.{
  from_pointer-target, reader_from_pointer-target, init_pointer-target, init_pointer-HasRoom,
  init_pointer-Keeps,
}
use capnproto_test.Frames.AudioFrame
use capnproto_test.Frames.AudioFrame.{audio_frame}
use capnproto_test.Frames.VideoFrame
use capnproto_test.Frames.VideoFrame.{video_frame}
use capnproto_test.Frames.Frame.{frame, builder_impls}
use capnproto_test.Frames.Frame.Which.{audio_frame_case, video_frame_case}
use capnproto_test.Frames.Frame.Reader
use capnproto_test.Frames.Frame.Builder

-- The union of `b` has the discriminant `d`, and its pointer holds the struct `c`.
pub record Holds ⦃R : Layout⦄ (C : Content R) {o : Owned} (b : Builder frame) (d : ℕ)
    (c : Builder o) (t : R.State) : Type 0 where
  pub room : HasRoom C b
  pub c_room : HasRoom C c
  pub tag : R.get_data_field_mut b.builder u16 0 t ≡ d
  pub here : C.target (R.get_pointer_field_mut b.builder 0) t ≡ structure c.builder

module _ ⦃R : Layout⦄ {C : Content R} (L : IsLawful R C) {b : Builder frame} {t : R.State} where
  which-audio_frame :
      {c : Builder audio_frame}
      → Holds C b 0 c t
      → Builder.which b t ≡ ok (known (audio_frame_case (Result.ok c))) t
  unfolding Builder.which
  which-audio_frame {c} h = ground (
    arith,
    h.tag,
    from_pointer-target L c h.c_room t (R.get_pointer_field_mut b.builder 0) h.here,
  )

  pub read-audio_frame :
      {c : Builder audio_frame}
      → Holds C b 0 c t
      → Reader.which (builder_impls.into_reader b t) t
        ≡ ok (known (audio_frame_case (Result.ok (AudioFrame.builder_impls.into_reader c t)))) t
  unfolding Reader.which builder_into_reader
  read-audio_frame {c} h = ground (
    arith,
    h.tag,
    read-into_reader L b h.room u16 0 t (omega arith),
    reader_from_pointer-target L audio_frame b c 0 t h.room (omega arith) h.here,
  )

  which-video_frame :
      {c : Builder video_frame}
      → Holds C b 1 c t
      → Builder.which b t ≡ ok (known (video_frame_case (Result.ok c))) t
  unfolding Builder.which
  which-video_frame {c} h = ground (
    arith,
    h.tag,
    from_pointer-target L c h.c_room t (R.get_pointer_field_mut b.builder 0) h.here,
  )

  pub read-video_frame :
      {c : Builder video_frame}
      → Holds C b 1 c t
      → Reader.which (builder_impls.into_reader b t) t
        ≡ ok (known (video_frame_case (Result.ok (VideoFrame.builder_impls.into_reader c t)))) t
  unfolding Reader.which builder_into_reader
  read-video_frame {c} h = ground (
    arith,
    h.tag,
    read-into_reader L b h.room u16 0 t (omega arith),
    reader_from_pointer-target L video_frame b c 0 t h.room (omega arith) h.here,
  )

module _ ⦃R : Layout⦄ {C : Content R} (L : IsLawful R C) (b : Builder frame) (room : HasRoom C b)
    (s : R.State) where
  pub init_audio_frame-Holds :
      Holds C b 0 (Builder.init_audio_frame b s).0 (Builder.init_audio_frame b s).1
  unfolding Builder.init_audio_frame
  init_audio_frame-Holds =
      let u = R.set_data_field b.builder u16 0 0 s in
      let p = R.get_pointer_field_mut b.builder 0 in
      record {
        room = room;
        c_room = init_pointer-HasRoom L audio_frame p u;
        tag =
            kept_field L b room (init_pointer-Keeps L audio_frame b 0 u room (omega arith)) u16 0
              (omega arith)
            ∙ get-set L b room u16 0 0 s (omega arith) (omega arith);
        here = init_pointer-target L audio_frame p u;
      }

  -- After `init_audio_frame` on a frame with room, `which` gives the audio frame that it made, of the
  -- builder and of a reader of it, that frame has room for its struct, and of the two tests
  -- `has_audio_frame` holds and `has_video_frame` does not.
  pub init_audio_frame_lem :
      let made = Builder.init_audio_frame b s in
      HasRoom C made.0
      × (Builder.which b made.1 ≡ ok (known (audio_frame_case (Result.ok made.0))) made.1)
      × (Reader.which (builder_impls.into_reader b made.1) made.1
          ≡ ok
              (known
                (audio_frame_case (Result.ok (AudioFrame.builder_impls.into_reader made.0 made.1))))
              made.1)
      × (Builder.has_audio_frame b made.1 ≡ true)
      × (Builder.has_video_frame b made.1 ≡ false)
  unfolding Builder.has_audio_frame Builder.has_video_frame
  init_audio_frame_lem =
      let h = init_audio_frame-Holds in
      (
        h.c_room,
        which-audio_frame L h,
        read-audio_frame L h,
        ground (
          arith,
          h.tag,
          h.here,
          L.is_null-target (R.get_pointer_field_mut b.builder 0) (Builder.init_audio_frame b s).1,
        ),
        ground (arith, h.tag),
      )

  pub init_video_frame-Holds :
      Holds C b 1 (Builder.init_video_frame b s).0 (Builder.init_video_frame b s).1
  unfolding Builder.init_video_frame
  init_video_frame-Holds =
      let u = R.set_data_field b.builder u16 0 1 s in
      let p = R.get_pointer_field_mut b.builder 0 in
      record {
        room = room;
        c_room = init_pointer-HasRoom L video_frame p u;
        tag =
            kept_field L b room (init_pointer-Keeps L video_frame b 0 u room (omega arith)) u16 0
              (omega arith)
            ∙ get-set L b room u16 0 1 s (omega arith) (omega arith);
        here = init_pointer-target L video_frame p u;
      }

  -- After `init_video_frame` on a frame with room, `which` gives the video frame that it made, of the
  -- builder and of a reader of it, that frame has room for its struct, and of the two tests
  -- `has_video_frame` holds and `has_audio_frame` does not.
  pub init_video_frame_lem :
      let made = Builder.init_video_frame b s in
      HasRoom C made.0
      × (Builder.which b made.1 ≡ ok (known (video_frame_case (Result.ok made.0))) made.1)
      × (Reader.which (builder_impls.into_reader b made.1) made.1
          ≡ ok
              (known
                (video_frame_case (Result.ok (VideoFrame.builder_impls.into_reader made.0 made.1))))
              made.1)
      × (Builder.has_video_frame b made.1 ≡ true)
      × (Builder.has_audio_frame b made.1 ≡ false)
  unfolding Builder.has_video_frame Builder.has_audio_frame
  init_video_frame_lem =
      let h = init_video_frame-Holds in
      (
        h.c_room,
        which-video_frame L h,
        read-video_frame L h,
        ground (
          arith,
          h.tag,
          h.here,
          L.is_null-target (R.get_pointer_field_mut b.builder 0) (Builder.init_video_frame b s).1,
        ),
        ground (arith, h.tag),
      )

  -- After `set_audio_frame` on a frame with room `has_video_frame` is false, after `set_video_frame`
  -- `has_audio_frame` is false, and after neither does `which` of a reader refuse the discriminant,
  -- also when the copy of the struct fails.
  pub set_frame_tags :
      (audio : Reader audio_frame) (video : Reader video_frame)
      → let t = final (Builder.set_audio_frame b audio s) in
        let u = final (Builder.set_video_frame b video s) in
        (Builder.has_video_frame b t ≡ false)
        × (Builder.has_audio_frame b u ≡ false)
        × ((x : ℕ) → ¬ (Reader.which (builder_impls.into_reader b t) t ≡ ok (not_in_schema x) t))
        × ((x : ℕ) → ¬ (Reader.which (builder_impls.into_reader b u) u ≡ ok (not_in_schema x) u))
  unfolding Builder.set_audio_frame Builder.set_video_frame Builder.has_audio_frame
      Builder.has_video_frame Reader.which builder_into_reader
  set_frame_tags audio video =
      let p = R.get_pointer_field_mut b.builder 0 in
      let s0 = R.set_data_field b.builder u16 0 0 s in
      let s1 = R.set_data_field b.builder u16 0 1 s in
      let t = final (R.set_struct p audio.reader false s0) in
      let u = final (R.set_struct p video.reader false s1) in
      let tag0 =
        kept_field L b room
          (L.set_struct-Keeps b.builder 0 audio.reader false s0 (omega (arith, room.pointer_room)))
          u16 0 (omega arith)
        ∙ get-set L b room u16 0 0 s (omega arith) (omega arith) in
      let tag1 =
        kept_field L b room
          (L.set_struct-Keeps b.builder 0 video.reader false s1 (omega (arith, room.pointer_room)))
          u16 0 (omega arith)
        ∙ get-set L b room u16 0 1 s (omega arith) (omega arith) in
      (
        ground (arith, tag0),
        ground (arith, tag1),
        λ x e. ground (arith, tag0, read-into_reader L b room u16 0 t (omega arith)),
        λ x e. ground (arith, tag1, read-into_reader L b room u16 0 u (omega arith)),
      )
