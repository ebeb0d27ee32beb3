-- ===== src/Frames/Rational/Reader.antt =====
-- The accessors of `rational::Reader` in rust/src/schema/frames_capnp.rs.
use capnproto_test.Base.{ℕ}
use capnproto_test.Layout.{Layout}
use capnproto_test.Layout.Elements.{u32}
use capnproto_test.Struct.{Reader}
use capnproto_test.Frames.Rational.{rational}

module _ ⦃R : Layout⦄ where
  unfoldable pub get_num : Reader rational → ℕ
  get_num r = R.get_data_field r.reader u32 0

  unfoldable pub get_den : Reader rational → ℕ
  get_den r = R.get_data_field r.reader u32 1
