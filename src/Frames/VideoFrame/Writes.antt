-- ===== src/Frames/VideoFrame/Writes.antt =====
-- Any sequence of writes to a `video_frame` against a record of its values.
use capnproto_test.Base.{
  ℕ, ◌^◌, ◌<◌, ◌≡◌, refl, ◌∙◌, ap, List, [], ◌∷◌, length, zeros, some, ok, Bool, true, false, ◌||◌,
  known, arith,
}
use capnproto_test.Layout.{Layout}
use capnproto_test.Layout.Elements.{u16, u32, bits}
use capnproto_test.Layout.Laws.{Content, IsLawful, Keeps, list_limit}
use capnproto_test.Struct.{Builder, builder_into_reader}
use capnproto_test.Struct.Made.{
  MadeIf, is_made, is_kept, MadeIf-trans, init_pointer-Made, from_pointer-Made,
  reader_from_pointer-Made,
}
use capnproto_test.Struct.Fields.{HasRoom}
use capnproto_test.Struct.Pointers.{init_pointer-Keeps, init_pointer-not_null}
use capnproto_test.Frames.Rational
use capnproto_test.Frames.Rational.{rational}
use capnproto_test.Frames.VideoFrame.{video_frame, builder_impls}
use capnproto_test.Frames.VideoFrame.Reader
use capnproto_test.Frames.VideoFrame.Builder
use capnproto_test.Frames.VideoFrame.Values.{
  Values, values, read_values, values-set_width, values-set_height, values-set_pixel_format,
  values-set_stream_id, values_data, values_pts, read_values-into_reader,
}
use capnproto_test.Frames.VideoFrame.PixelFormats.{PixelFormat, to_u16}

module _ ⦃R : Layout⦄ where
  -- The calls of a builder that write and cannot fail.
  pub data Write : Type 0 where
    set_width : ℕ → Write
    set_height : ℕ → Write
    set_pixel_format : PixelFormat → Write
    set_stream_id : ℕ → Write
    set_data : R.DataReader → Write
    init_data : ℕ → Write
    init_pts : Write

  -- The call.
  unfoldable pub write : Builder video_frame → Write → R.State → R.State
  write b (set_width v) s = Builder.set_width b v s
  write b (set_height v) s = Builder.set_height b v s
  write b (set_pixel_format v) s = Builder.set_pixel_format b v s
  write b (set_stream_id v) s = Builder.set_stream_id b v s
  write b (set_data d) s = Builder.set_data b d s
  write b (init_data k) s = (Builder.init_data b k s).1
  write b init_pts s = (Builder.init_pts b s).1

  unfoldable pub write_video_frame : Builder video_frame → List Write → R.State → R.State
  write_video_frame b [] s = s
  write_video_frame b (w ∷ ws) s = write_video_frame b ws (write b w s)

module _ ⦃R : Layout⦄ (C : Content R) where
  -- What a write makes of the values.
  abbrev pub apply : Write → Values → Values
  apply (set_width v) x = record x { width = v }
  apply (set_height v) x = record x { height = v }
  apply (set_pixel_format v) x = record x { pixel_format = known v }
  apply (set_stream_id v) x = record x { stream_id = v }
  apply (set_data d) x = record x { has_data = true; contents = some (C.contents d) }
  apply (init_data k) x = record x { has_data = true; contents = some (zeros k) }
  apply init_pts x = record x { has_pts = true }

  -- The number fits the type of the field, and the bytes fit a list.
  abbrev pub IsSmall : Write → Type 0
  IsSmall (set_width v) = v < 2 ^ bits u32
  IsSmall (set_height v) = v < 2 ^ bits u32
  IsSmall (set_pixel_format v) = Unit {0}
  IsSmall (set_stream_id v) = v < 2 ^ bits u32
  IsSmall (set_data d) = length (C.contents d) < list_limit
  IsSmall (init_data k) = k < list_limit
  IsSmall init_pts = Unit {0}

  abbrev pub apply_all : List Write → Values → Values
  apply_all [] x = x
  apply_all (w ∷ ws) x = apply_all ws (apply w x)

  abbrev pub AllSmall : List Write → Type 0
  AllSmall [] = Unit
  AllSmall (w ∷ ws) = IsSmall w × AllSmall ws

module _ ⦃R : Layout⦄ where
  -- The write makes a new struct behind the pointer `pts`.
  abbrev pub makes_pts : Write → Bool
  makes_pts init_pts = true
  makes_pts _ = false

  abbrev pub any_makes_pts : List Write → Bool
  any_makes_pts [] = false
  any_makes_pts (w ∷ ws) = makes_pts w || any_makes_pts ws

module _ ⦃R : Layout⦄ (C : Content R) (b : Builder video_frame) where
  -- `get_pts` of the builder and of a reader of it give the same struct, of just the size of the schema.
  pub record MadePts (t : R.State) : Type 0 where
    pub made : Builder rational
    pub exact : C.size made.builder ≡ rational.struct_size
    pub get : Builder.get_pts b t ≡ ok made t
    pub read :
        Reader.get_pts (builder_impls.into_reader b t) t
        ≡ ok (Rational.builder_impls.into_reader made t) t

  -- Of the states before and after writes that made such a struct, or made none.
  abbrev pub ShowsPts : Bool → R.State → R.State → Type 0
  ShowsPts true s t = MadePts t
  ShowsPts false s t =
      C.target (R.get_pointer_field_mut b.builder 1) t
      ≡ C.target (R.get_pointer_field_mut b.builder 1) s

module _ ⦃R : Layout⦄ {C : Content R} (L : IsLawful R C) (b : Builder video_frame)
    (room : HasRoom C b) where
  values-write :
      (w : Write) (s : R.State) → IsSmall C w → values C b (write b w s) ≡ apply C w (values C b s)
  unfolding write Builder.set_data Builder.init_data Builder.init_pts
  values-write (set_width v) s h = values-set_width L b room v s h
  values-write (set_height v) s h = values-set_height L b room v s h
  values-write (set_pixel_format v) s h = values-set_pixel_format L b room v s
  values-write (set_stream_id v) s h = values-set_stream_id L b room v s h
  values-write (set_data d) s h =
      values_data L b room s _ (C.contents d)
        (L.set_data-Keeps b.builder 0 d s (omega (arith, room.pointer_room)) h)
        (L.set_data-target (R.get_pointer_field_mut b.builder 0) d s h)
  values-write (init_data k) s h =
      values_data L b room s _ (zeros k)
        (L.init_data-Keeps b.builder 0 k s (omega (arith, room.pointer_room)) h)
        (L.init_data-target (R.get_pointer_field_mut b.builder 0) k s h)
  values-write init_pts s h =
      values_pts L b room s _ (init_pointer-Keeps L rational b 1 s room (omega arith))
        (init_pointer-not_null L rational (R.get_pointer_field_mut b.builder 1) s)

  pub write_video_frame-values :
      (ws : List Write) (s : R.State)
      → AllSmall C ws
      → let t = write_video_frame b ws s in
        (values C b t ≡ apply_all C ws (values C b s))
        × (read_values C (builder_impls.into_reader b t) t ≡ apply_all C ws (values C b s))
  unfolding write_video_frame
  write_video_frame-values [] s small = (refl, read_values-into_reader L b room s)
  write_video_frame-values (w ∷ ws) s (h, small) =
      let (e, e') = write_video_frame-values ws (write b w s) small in
      let step = ap (apply_all C ws) (values-write w s h) in (e ∙ step, e' ∙ step)

  write-MadeIf :
      (w : Write) (s : R.State) → IsSmall C w → MadeIf C rational b 1 (makes_pts w) s (write b w s)
  unfolding write Builder.set_width Builder.set_height Builder.set_pixel_format
      Builder.set_stream_id Builder.set_data Builder.init_data Builder.init_pts
  write-MadeIf (set_width v) s h =
      is_kept (L.target-set b.builder u32 0 v s _ (omega (arith, room.data_room)))
  write-MadeIf (set_height v) s h =
      is_kept (L.target-set b.builder u32 1 v s _ (omega (arith, room.data_room)))
  write-MadeIf (set_pixel_format v) s h =
      is_kept (L.target-set b.builder u16 4 (to_u16 v) s _ (omega (arith, room.data_room)))
  write-MadeIf (set_stream_id v) s h =
      is_kept (L.target-set b.builder u32 3 v s _ (omega (arith, room.data_room)))
  write-MadeIf (set_data d) s h = is_kept (
      Keeps.same_pointers (L.set_data-Keeps b.builder 0 d s (omega (arith, room.pointer_room)) h) 1
        (omega (arith, room.pointer_room)) (omega arith))
  write-MadeIf (init_data k) s h = is_kept (
      Keeps.same_pointers (L.init_data-Keeps b.builder 0 k s (omega (arith, room.pointer_room)) h) 1
        (omega (arith, room.pointer_room)) (omega arith))
  write-MadeIf init_pts s h = is_made (init_pointer-Made rational b 1 L s)

  write_video_frame-MadeIf :
      (ws : List Write) (s : R.State)
      → AllSmall C ws
      → MadeIf C rational b 1 (any_makes_pts ws) s (write_video_frame b ws s)
  unfolding write_video_frame
  write_video_frame-MadeIf [] s small = is_kept refl
  write_video_frame-MadeIf (w ∷ ws) s (h, small) =
      MadeIf-trans rational b 1 _ _ (write-MadeIf w s h) (write_video_frame-MadeIf ws _ small)

  MadeIf-Shows : (x : Bool) (s t : R.State) → MadeIf C rational b 1 x s t → ShowsPts C b x s t
  unfolding Builder.get_pts Reader.get_pts builder_into_reader
  MadeIf-Shows true s t (is_made h) = record {
    made = h.made;
    exact = h.exact;
    get = from_pointer-Made rational b 1 L t h;
    read = reader_from_pointer-Made rational b 1 L t h room (omega arith);
  }
  MadeIf-Shows false s t (is_kept e) = e

  -- After any sequence of calls of the setters and initialisers of a video frame with room, except
  -- `set_pts`, with numbers that fit their fields and fewer than 2 ^ 29 bytes, the getters of the
  -- numbers, the `has` tests and the bytes that `get_data` gives, of the builder and of a reader of
  -- it, are what the same updates of a record make of those before; and where `init_pts` was called,
  -- `get_pts` of both gives the same rational, of just the size of the schema, while otherwise its
  -- pointer holds what it held.
  pub write_video_frame_lem :
      (ws : List Write) (s : R.State)
      → AllSmall C ws
      → let t = write_video_frame b ws s in
        (values C b t ≡ apply_all C ws (values C b s))
        × (read_values C (builder_impls.into_reader b t) t ≡ apply_all C ws (values C b s))
        × ShowsPts C b (any_makes_pts ws) s t
  write_video_frame_lem ws s small =
      let (e, e') = write_video_frame-values ws s small in
      (e, e', MadeIf-Shows _ s _ (write_video_frame-MadeIf ws s small))
