-- ===== src/Frames/AudioFrame/Values.antt =====
-- The accessors of `audio_frame` against a record of its values.
use capnproto_test.Base.{ℕ, ◌^◌, ◌<◌, ◌≡◌, Bool, true, false, List, Option, some, arith}
use capnproto_test.Layout.{Layout}
use capnproto_test.Layout.Elements.{u16, u32, bits}
use capnproto_test.Layout.Laws.{Content, IsLawful, Keeps, blob, shown, shown_mut}
use capnproto_test.Struct.{Reader, Builder, builder_into_reader}
use capnproto_test.Struct.Fields.{
  HasRoom, get-set, get-set_other, is_null-set, read-into_reader, is_null-read, kept_field,
  kept_null, kept_bytes, bytes-set, bytes-read,
}
use capnproto_test.Frames.AudioFrame.{audio_frame, builder_impls}
use capnproto_test.Frames.AudioFrame.Reader
use capnproto_test.Frames.AudioFrame.Builder

-- The values of the data fields, and which pointers are set.
pub record Values : Type 0 where
  pub num_samples : ℕ
  pub channels : ℕ
  pub stream_id : ℕ
  pub has_data : Bool
  pub has_pts : Bool
  -- The bytes that `get_data` returns, if it returns any
  pub contents : Option (List ℕ)

module _ ⦃R : Layout⦄ where
  unfoldable pub values : (C : Content R) → Builder audio_frame → R.State → Values
  unfolding Builder.get_num_samples Builder.get_channels Builder.get_stream_id Builder.has_data
      Builder.has_pts Builder.get_data
  values C b s = record {
    num_samples = Builder.get_num_samples b s;
    channels = Builder.get_channels b s;
    stream_id = Builder.get_stream_id b s;
    has_data = Builder.has_data b s;
    has_pts = Builder.has_pts b s;
    contents = shown_mut C (Builder.get_data b s);
  }

  unfoldable pub read_values : (C : Content R) → Reader audio_frame → R.State → Values
  unfolding Reader.get_num_samples Reader.get_channels Reader.get_stream_id Reader.has_data
      Reader.has_pts Reader.get_data
  read_values C r s = record {
    num_samples = Reader.get_num_samples r;
    channels = Reader.get_channels r;
    stream_id = Reader.get_stream_id r;
    has_data = Reader.has_data r;
    has_pts = Reader.has_pts r;
    contents = shown C (Reader.get_data r s);
  }

module _ ⦃R : Layout⦄ {C : Content R} (L : IsLawful R C) (b : Builder audio_frame)
    (room : HasRoom C b) where
  pub values-set_num_samples :
      (v : ℕ) (s : R.State)
      → v < 2 ^ bits u32
      → values C b (Builder.set_num_samples b v s) ≡ record (values C b s) { num_samples = v }
  unfolding values Builder.set_num_samples
  values-set_num_samples v s h = ground (
    arith,
    get-set L b room u32 0 v s (omega arith) h,
    get-set_other L b room u32 u16 0 2 v s (omega arith) (omega arith) (omega arith),
    get-set_other L b room u32 u32 0 2 v s (omega arith) (omega arith) (omega arith),
    bytes-set L b room u32 0 v 0 s (omega arith),
    is_null-set L b room u32 0 v 0 s (omega arith),
    is_null-set L b room u32 0 v 1 s (omega arith),
  )

  pub values-set_channels :
      (v : ℕ) (s : R.State)
      → v < 2 ^ bits u16
      → values C b (Builder.set_channels b v s) ≡ record (values C b s) { channels = v }
  unfolding values Builder.set_channels
  values-set_channels v s h = ground (
    arith,
    get-set L b room u16 2 v s (omega arith) h,
    get-set_other L b room u16 u32 2 0 v s (omega arith) (omega arith) (omega arith),
    get-set_other L b room u16 u32 2 2 v s (omega arith) (omega arith) (omega arith),
    bytes-set L b room u16 2 v 0 s (omega arith),
    is_null-set L b room u16 2 v 0 s (omega arith),
    is_null-set L b room u16 2 v 1 s (omega arith),
  )

  pub values-set_stream_id :
      (v : ℕ) (s : R.State)
      → v < 2 ^ bits u32
      → values C b (Builder.set_stream_id b v s) ≡ record (values C b s) { stream_id = v }
  unfolding values Builder.set_stream_id
  values-set_stream_id v s h = ground (
    arith,
    get-set L b room u32 2 v s (omega arith) h,
    get-set_other L b room u32 u32 2 0 v s (omega arith) (omega arith) (omega arith),
    get-set_other L b room u32 u16 2 2 v s (omega arith) (omega arith) (omega arith),
    bytes-set L b room u32 2 v 0 s (omega arith),
    is_null-set L b room u32 2 v 0 s (omega arith),
    is_null-set L b room u32 2 v 1 s (omega arith),
  )

  -- A write through the pointer `data` that leaves a list of bytes.
  pub values_data :
      (s t : R.State) (l : List ℕ)
      → Keeps R C b.builder 0 s t
      → C.target (R.get_pointer_field_mut b.builder 0) t ≡ blob l
      → values C b t ≡ record (values C b s) { has_data = true; contents = some l }
  unfolding values
  values_data s t l keeps here = ground (
    arith,
    here,
    L.is_null-target (R.get_pointer_field_mut b.builder 0) t,
    L.get_data-target (R.get_pointer_field_mut b.builder 0) t,
    kept_field L b room keeps u32 0 (omega arith),
    kept_field L b room keeps u16 2 (omega arith),
    kept_field L b room keeps u32 2 (omega arith),
    kept_null L b room keeps 1 (omega arith) (omega arith),
  )

  -- A write through the pointer `pts` that leaves it not null.
  pub values_pts :
      (s t : R.State)
      → Keeps R C b.builder 1 s t
      → R.is_null_mut (R.get_pointer_field_mut b.builder 1) t ≡ false
      → values C b t ≡ record (values C b s) { has_pts = true }
  unfolding values
  values_pts s t keeps filled = ground (
    arith,
    kept_field L b room keeps u32 0 (omega arith),
    kept_field L b room keeps u16 2 (omega arith),
    kept_field L b room keeps u32 2 (omega arith),
    kept_null L b room keeps 0 (omega arith) (omega arith),
    kept_bytes L b room keeps 0 (omega arith) (omega arith),
  )

  -- A reader of the builder has its values.
  pub read_values-into_reader :
      (s : R.State) → read_values C (builder_impls.into_reader b s) s ≡ values C b s
  unfolding values read_values builder_into_reader
  read_values-into_reader s = ground (
    arith,
    read-into_reader L b room u32 0 s (omega arith),
    read-into_reader L b room u16 2 s (omega arith),
    read-into_reader L b room u32 2 s (omega arith),
    is_null-read L b room 0 s (omega arith),
    is_null-read L b room 1 s (omega arith),
    bytes-read L b room 0 s (omega arith),
  )
