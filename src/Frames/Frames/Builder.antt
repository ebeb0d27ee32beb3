-- ===== src/Frames/Frames/Builder.antt =====
-- The accessors of `frames::Builder` in rust/src/schema/frames_capnp.rs.
use capnproto_test.Base.{Bool, Command, false, not, ℕ}
use capnproto_test.Layout.{Layout}
use capnproto_test.Struct.{Builder}
use capnproto_test.Frames.Frame.{frame}
use capnproto_test.Frames.Frames.{frames}

module _ ⦃R : Layout⦄ where
  unfoldable pub get_frames : Builder frames → Command R.State R.Error (R.StructListBuilder frame)
  get_frames b = R.get_struct_list_mut frame (R.get_pointer_field_mut b.builder 0)

  unfoldable pub set_frames :
      Builder frames → R.StructListReader frame → Command R.State R.Error (Unit {0})
  set_frames b value = R.set_struct_list frame (R.get_pointer_field_mut b.builder 0) value false

  unfoldable pub init_frames : Builder frames → ℕ → R.State → R.StructListBuilder frame × R.State
  init_frames b size s = R.init_struct_list frame (R.get_pointer_field_mut b.builder 0) size s

  unfoldable pub has_frames : Builder frames → R.State → Bool
  has_frames b s = not (R.is_null_mut (R.get_pointer_field_mut b.builder 0) s)
