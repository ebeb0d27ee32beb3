-- ===== src/Frames/Frames/Reader.antt =====
-- The accessors of `frames::Reader` in rust/src/schema/frames_capnp.rs.
use capnproto_test.Base.{Bool, Command, not}
use capnproto_test.Layout.{Layout}
use capnproto_test.Struct.{Reader}
use capnproto_test.Frames.Frame.{frame}
use capnproto_test.Frames.Frames.{frames}

module _ ⦃R : Layout⦄ where
  unfoldable pub get_frames : Reader frames → Command R.State R.Error (R.StructListReader frame)
  get_frames r = R.get_struct_list frame (R.get_pointer_field r.reader 0)

  unfoldable pub has_frames : Reader frames → Bool
  has_frames r = not (R.is_null (R.get_pointer_field r.reader 0))
