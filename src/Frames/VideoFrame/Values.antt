-- ===== src/Frames/VideoFrame/Values.antt =====
-- The accessors of `video_frame` against a record of its values.
use capnproto_test.Base.{
  ℕ, ◌^◌, ◌<◌, ◌≡◌, Bool, true, false, List, Option, some, InSchema, known, arith,
}
use capnproto_test.Layout.{Layout}
use capnproto_test.Layout.Elements.{u16, u32, bits}
use capnproto_test.Layout.Laws.{Content, IsLawful, Keeps, blob, shown, shown_mut}
use capnproto_test.Struct.{Reader, Builder, builder_into_reader}
use capnproto_test.Struct.Fields.{
  HasRoom, get-set, get-set_other, is_null-set, read-into_reader, is_null-read, kept_field,
  kept_null, kept_bytes, bytes-set, bytes-read,
}
use capnproto_test.Frames.VideoFrame.{video_frame, builder_impls}
use capnproto_test.Frames.VideoFrame.Reader
use capnproto_test.Frames.VideoFrame.Builder
use capnproto_test.Frames.VideoFrame.PixelFormats.{PixelFormat, to_u16}
use capnproto_test.Frames.VideoFrame.PixelFormats.Numbers.{to_u16-lt, from_u16-to_u16}

-- The values of the data fields, and which pointers are set.
pub record Values : Type 0 where
  pub width : ℕ
  pub height : ℕ
  pub pixel_format : InSchema PixelFormat
  pub stream_id : ℕ
  pub has_data : Bool
  pub has_pts : Bool
  -- The bytes that `get_data` returns, if it returns any
  pub contents : Option (List ℕ)

module _ ⦃R : Layout⦄ where
  unfoldable pub values : (C : Content R) → Builder video_frame → R.State → Values
  unfolding Builder.get_width Builder.get_height Builder.get_pixel_format Builder.get_stream_id
      Builder.has_data Builder.has_pts Builder.get_data
  values C b s = record {
    width = Builder.get_width b s;
    height = Builder.get_height b s;
    pixel_format = Builder.get_pixel_format b s;
    stream_id = Builder.get_stream_id b s;
    has_data = Builder.has_data b s;
    has_pts = Builder.has_pts b s;
    contents = shown_mut C (Builder.get_data b s);
  }

  unfoldable pub read_values : (C : Content R) → Reader video_frame → R.State → Values
  unfolding Reader.get_width Reader.get_height Reader.get_pixel_format Reader.get_stream_id
      Reader.has_data Reader.has_pts Reader.get_data
  read_values C r s = record {
    width = Reader.get_width r;
    height = Reader.get_height r;
    pixel_format = Reader.get_pixel_format r;
    stream_id = Reader.get_stream_id r;
    has_data = Reader.has_data r;
    has_pts = Reader.has_pts r;
    contents = shown C (Reader.get_data r s);
  }

module _ ⦃R : Layout⦄ {C : Content R} (L : IsLawful R C) (b : Builder video_frame)
    (room : HasRoom C b) where
  pub values-set_width :
      (v : ℕ) (s : R.State)
      → v < 2 ^ bits u32
      → values C b (Builder.set_width b v s) ≡ record (values C b s) { width = v }
  unfolding values Builder.set_width
  values-set_width v s h = ground (
    arith,
    get-set L b room u32 0 v s (omega arith) h,
    get-set_other L b room u32 u32 0 1 v s (omega arith) (omega arith) (omega arith),
    get-set_other L b room u32 u16 0 4 v s (omega arith) (omega arith) (omega arith),
    get-set_other L b room u32 u32 0 3 v s (omega arith) (omega arith) (omega arith),
    bytes-set L b room u32 0 v 0 s (omega arith),
    is_null-set L b room u32 0 v 0 s (omega arith),
    is_null-set L b room u32 0 v 1 s (omega arith),
  )

  pub values-set_height :
      (v : ℕ) (s : R.State)
      → v < 2 ^ bits u32
      → values C b (Builder.set_height b v s) ≡ record (values C b s) { height = v }
  unfolding values Builder.set_height
  values-set_height v s h = ground (
    arith,
    get-set L b room u32 1 v s (omega arith) h,
    get-set_other L b room u32 u32 1 0 v s (omega arith) (omega arith) (omega arith),
    get-set_other L b room u32 u16 1 4 v s (omega arith) (omega arith) (omega arith),
    get-set_other L b room u32 u32 1 3 v s (omega arith) (omega arith) (omega arith),
    bytes-set L b room u32 1 v 0 s (omega arith),
    is_null-set L b room u32 1 v 0 s (omega arith),
    is_null-set L b room u32 1 v 1 s (omega arith),
  )

  pub values-set_pixel_format :
      (v : PixelFormat) (s : R.State)
      → values C b (Builder.set_pixel_format b v s)
        ≡ record (values C b s) { pixel_format = known v }
  unfolding values Builder.set_pixel_format
  values-set_pixel_format v s = ground (
    arith,
    get-set L b room u16 4 (to_u16 v) s (omega arith) (to_u16-lt v),
    from_u16-to_u16 v,
    get-set_other L b room u16 u32 4 0 (to_u16 v) s (omega arith) (omega arith) (omega arith),
    get-set_other L b room u16 u32 4 1 (to_u16 v) s (omega arith) (omega arith) (omega arith),
    get-set_other L b room u16 u32 4 3 (to_u16 v) s (omega arith) (omega arith) (omega arith),
    bytes-set L b room u16 4 (to_u16 v) 0 s (omega arith),
    is_null-set L b room u16 4 (to_u16 v) 0 s (omega arith),
    is_null-set L b room u16 4 (to_u16 v) 1 s (omega arith),
  )

  pub values-set_stream_id :
      (v : ℕ) (s : R.State)
      → v < 2 ^ bits u32
      → values C b (Builder.set_stream_id b v s) ≡ record (values C b s) { stream_id = v }
  unfolding values Builder.set_stream_id
  values-set_stream_id v s h = ground (
    arith,
    get-set L b room u32 3 v s (omega arith) h,
    get-set_other L b room u32 u32 3 0 v s (omega arith) (omega arith) (omega arith),
    get-set_other L b room u32 u32 3 1 v s (omega arith) (omega arith) (omega arith),
    get-set_other L b room u32 u16 3 4 v s (omega arith) (omega arith) (omega arith),
    bytes-set L b room u32 3 v 0 s (omega arith),
    is_null-set L b room u32 3 v 0 s (omega arith),
    is_null-set L b room u32 3 v 1 s (omega arith),
  )

  -- A write through the pointer `data` that leaves a list of bytes.
  pub values_data :
      (s t : R.State) (l : List ℕ)
      → Keeps R C b.builder 0 s t
      → C.target (R.get_pointer_field_mut b.builder 0) t ≡ blob l
      → values C b t ≡ record (values C b s) { has_data = true; contents = some l }
  unfolding values
  values_data s t l keeps here = ground (
    arith,
    here,
    L.is_null-target (R.get_pointer_field_mut b.builder 0) t,
    L.get_data-target (R.get_pointer_field_mut b.builder 0) t,
    kept_field L b room keeps u32 0 (omega arith),
    kept_field L b room keeps u32 1 (omega arith),
    kept_field L b room keeps u16 4 (omega arith),
    kept_field L b room keeps u32 3 (omega arith),
    kept_null L b room keeps 1 (omega arith) (omega arith),
  )

  -- A write through the pointer `pts` that leaves it not null.
  pub values_pts :
      (s t : R.State)
      → Keeps R C b.builder 1 s t
      → R.is_null_mut (R.get_pointer_field_mut b.builder 1) t ≡ false
      → values C b t ≡ record (values C b s) { has_pts = true }
  unfolding values
  values_pts s t keeps filled = ground (
    arith,
    kept_field L b room keeps u32 0 (omega arith),
    kept_field L b room keeps u32 1 (omega arith),
    kept_field L b room keeps u16 4 (omega arith),
    kept_field L b room keeps u32 3 (omega arith),
    kept_null L b room keeps 0 (omega arith) (omega arith),
    kept_bytes L b room keeps 0 (omega arith) (omega arith),
  )

  -- A reader of the builder has its values.
  pub read_values-into_reader :
      (s : R.State) → read_values C (builder_impls.into_reader b s) s ≡ values C b s
  unfolding values read_values builder_into_reader
  read_values-into_reader s = ground (
    arith,
    read-into_reader L b room u32 0 s (omega arith),
    read-into_reader L b room u32 1 s (omega arith),
    read-into_reader L b room u16 4 s (omega arith),
    read-into_reader L b room u32 3 s (omega arith),
    is_null-read L b room 0 s (omega arith),
    is_null-read L b room 1 s (omega arith),
    bytes-read L b room 0 s (omega arith),
  )
