-- ===== src/Main/Frames/Printed.antt =====
-- What `frames_main` prints of a file that can be read.
use mathlib.Core.List.{append_cancel_left}
use capnproto_test.Base.{
  ℕ, sym, final, ◌↔◌, Outcome-cases, Bool-cases, ◌==◌, inl, inr, append-four, List, [], ◌∷◌, ◌++◌,
  ok, ◌≡◌, ◌≢◌, ◌∙◌, refl, ap, InSchema, known, not_in_schema, Result, arith,
}
use capnproto_test.Layout.{Layout}
use capnproto_test.Layout.Elements.{u16}
use capnproto_test.Layout.Laws.{Content, IsLawful}
use capnproto_test.Struct.{Reader, reader_from_pointer}
use capnproto_test.Frames.AudioFrame.{audio_frame}
use capnproto_test.Frames.AudioFrame.Reader as AudioReader
use capnproto_test.Frames.Rational.{rational}
use capnproto_test.Frames.Rational.Reader as RationalReader
use capnproto_test.Frames.Frame
use capnproto_test.Frames.Frame.{frame}
use capnproto_test.Frames.Frame.Reader as FrameReader
use capnproto_test.Frames.Frame.Which.{WhichReader, audio_frame_case, video_frame_case}
use capnproto_test.Frames.Frames
use capnproto_test.Frames.Frames.{frames}
use capnproto_test.Frames.Frames.Reader as FramesReader
use capnproto_test.Main.World.{
  Ending, stream_id, channels, pts, audio_data, not_audio_frame, Files, World, Printed, crate, host,
}
use capnproto_test.Main.Frames.{print_audio_frame, print_frame, expect_frame, frames_main}

module _ ⦃R : Layout⦄ {IoError : Type 0} (files : Files IoError) where
  -- The file can be read up to its first frame, `r`.
  pub record Opens (s : R.State) (r : Reader frame) (listed : R.State) : Type 0 where
    pub file : files.File
    pub message : files.Message
    pub pointer : R.PointerReader
    pub root : Reader frames
    pub list : R.StructListReader frame
    pub first : R.StructReader
    pub rest : List R.StructReader
    pub opened : R.State
    pub read : R.State
    pub pointed : R.State
    pub rooted : R.State
    pub file_opens : files.open_file "data.bin" s ≡ ok file opened
    pub read_message : files.read_message file opened ≡ ok message read
    pub root_pointer : files.root_pointer message read ≡ ok pointer pointed
    pub get_root : Frames.reader_impls.get_from_pointer pointer pointed ≡ ok root rooted
    pub get_frames : FramesReader.get_frames root rooted ≡ ok list listed
    pub iter : R.struct_list_iter frame list ≡ first ∷ rest
    pub is_first : r ≡ Frame.reader_impls.new first

  abbrev pub audio_lines : Reader audio_frame → Reader rational → R.DataReader → List Printed
  audio_lines af time d =
      stream_id (AudioReader.get_stream_id af)
      ∷ channels (AudioReader.get_channels af)
      ∷ pts (
          files.f64_div (files.f64_from_u32 (RationalReader.get_num time))
            (files.f64_from_u32 (RationalReader.get_den time)))
      ∷ audio_data d
      ∷ []

  frames_main-Opens :
      (w : World) (r : Reader frame) (x : InSchema WhichReader) (q t : R.State)
      → Opens w.state r q
      → FrameReader.which r q ≡ ok x t
      → frames_main files w ≡ print_frame files x (record w { state = t })
  unfolding frames_main expect_frame crate host
  frames_main-Opens w r x q t o e = ground (
    arith, o.file_opens, o.read_message, o.root_pointer, o.get_root, o.get_frames, o.iter,
    o.is_first, e,
  )

  print_frame-audio :
      (af : Reader audio_frame) (time : Reader rational) (d : R.DataReader) (w : World)
      (u v : R.State)
      → AudioReader.get_pts af w.state ≡ ok time u
      → AudioReader.get_data af u ≡ ok d v
      → print_frame files (known (audio_frame_case (Result.ok af))) w
        ≡ ok tt (record { lines = w.lines ++ audio_lines af time d; state = v })
  unfolding print_frame print_audio_frame crate
  print_frame-audio af time d w u v e e' =
      rw (e, e') (ap (λ l. ok tt (record { lines = l; state = v })) (append-four w.lines _ _ _ _))

  -- Where the file opens with an audio frame that can be read, its time and its bytes included,
  -- `frames_main` returns `Ok` and has printed exactly the stream, the channels, the quotient of the
  -- time and the bytes of that frame, in this order.
  pub frames_main-prints_audio :
      (w : World) (r : Reader frame) (af : Reader audio_frame) (time : Reader rational)
      (d : R.DataReader) (q t u v : R.State)
      → Opens w.state r q
      → FrameReader.which r q ≡ ok (known (audio_frame_case (Result.ok af))) t
      → AudioReader.get_pts af t ≡ ok time u
      → AudioReader.get_data af u ≡ ok d v
      → frames_main files w ≡ ok tt (record { lines = w.lines ++ audio_lines af time d; state = v })
  frames_main-prints_audio w r af time d q t u v o which e e' =
      frames_main-Opens w r (known (audio_frame_case (Result.ok af))) q t o which
      ∙ print_frame-audio af time d (record w { state = t }) u v e e'

  lines-ne_other :
      (l : List Printed) (k : ℕ) (m : List Printed)
      → l ++ (stream_id k ∷ m) ≢ l ++ not_audio_frame ∷ []
  lines-ne_other l k m e =
      let e' = append_cancel_left l (stream_id k ∷ m) (not_audio_frame ∷ []) e in cc

  -- An arm for an audio frame that is not read to the end returns no `Ok`; otherwise it prints four lines.
  audio-ne_other :
      (res : Result R.Error (Reader audio_frame)) (w : World) (t : R.State)
      → print_frame files (known (audio_frame_case res)) w
        ≢ ok tt (record { lines = w.lines ++ not_audio_frame ∷ []; state = t })
  unfolding print_frame print_audio_frame crate
  audio-ne_other (Result.err x) w t e = cc
  audio-ne_other (Result.ok af) w t e = elim (Outcome-cases (AudioReader.get_pts af w.state)) [
    | inl (time, u, e1) ↦ elim (Outcome-cases (AudioReader.get_data af u)) [
      | inl (d, v, e2) ↦ lines-ne_other w.lines _ _ (
          ap (λ (o : Ending IoError). (final o).lines)
            (sym (print_frame-audio af time d w u v e1 e2) ∙ e))
      | inr (inl (x, v, e2)) ↦ ground arith
      | inr (inr (v, e2)) ↦ ground arith
    ]
    | inr (inl (x, u, e1)) ↦ ground arith
    | inr (inr (u, e1)) ↦ ground arith
  ]

  -- A discriminant other than that of the audio frame gives another case.
  which-other :
      {C : Content R} (L : IsLawful R C) (r : Reader frame) (q : R.State)
      → R.get_data_field r.reader u16 0 ≢ 0
      → (t : R.State) × ((x : InSchema WhichReader) × (FrameReader.which r q ≡ ok x t)
          × ((w : World)
              → print_frame files x w
                ≡ ok tt (record w { lines = w.lines ++ not_audio_frame ∷ [] })))
  unfolding FrameReader.which print_frame reader_from_pointer
  which-other L r q ne = elim (Bool-cases (R.get_data_field r.reader u16 0 == 1)) [
    | inl one ↦ elim (Outcome-cases (R.get_struct (R.get_pointer_field r.reader 0) q)) [
      | inl (a, t, e) ↦ (
        t,
        (known (video_frame_case (Result.ok (record { reader = a }))), ground arith, λ w. refl),
      )
      | inr (inl (x, t, e)) ↦
          (t, (known (video_frame_case (Result.err x)), ground arith, λ w. refl))
      | inr (inr (t, e)) ↦ absurd (L.get_struct-ne_panic (R.get_pointer_field r.reader 0) q t e)
    ]
    | inr more ↦ (q, (not_in_schema (R.get_data_field r.reader u16 0), ground arith, λ w. refl))
  ]

  which-audio :
      {C : Content R} (L : IsLawful R C) (r : Reader frame) (q : R.State)
      → R.get_data_field r.reader u16 0 ≡ 0
      → (t : R.State) × ((res : Result R.Error (Reader audio_frame)) × (FrameReader.which r q
            ≡ ok (known (audio_frame_case res)) t))
  unfolding FrameReader.which reader_from_pointer
  which-audio L r q zero = elim (Outcome-cases (R.get_struct (R.get_pointer_field r.reader 0) q)) [
    | inl (a, t, e) ↦ (t, (Result.ok (record { reader = a }), ground arith))
    | inr (inl (x, t, e)) ↦ (t, (Result.err x, ground arith))
    | inr (inr (t, e)) ↦ absurd (L.get_struct-ne_panic (R.get_pointer_field r.reader 0) q t e)
  ]

  -- Where the file can be read up to its first frame, `frames_main` returns `Ok` with just the line
  -- that the frame is no audio frame printed, exactly when the discriminant of that frame is not that
  -- of the audio case, 0: the struct behind it may be readable or not.
  pub frames_main-prints_other_iff :
      {C : Content R} (L : IsLawful R C) (w : World) (r : Reader frame) (q : R.State)
      → Opens w.state r q
      → ((t : R.State) × (frames_main files w
            ≡ ok tt (record { lines = w.lines ++ not_audio_frame ∷ []; state = t })))
        ↔ (R.get_data_field r.reader u16 0 ≢ 0)
  frames_main-prints_other_iff L w r q o = (
    λ (t, e) zero.
        let (t', (res, which)) = which-audio L r q zero in
        audio-ne_other res (record w { state = t' }) t
          (sym (frames_main-Opens w r _ q t' o which) ∙ e),
    λ ne.
        let (t, (x, which, prints)) = which-other L r q ne in
        (t, frames_main-Opens w r x q t o which ∙ prints (record w { state = t })),
  )
