-- ===== src/Frames/Rational/Builder.antt =====
-- The accessors of `rational::Builder` in rust/src/schema/frames_capnp.rs.
use capnproto_test.Base.{ℕ}
use capnproto_test.Layout.{Layout}
use capnproto_test.Layout.Elements.{u32}
use capnproto_test.Struct.{Builder}
use capnproto_test.Frames.Rational.{rational}

module _ ⦃R : Layout⦄ where
  unfoldable pub get_num : Builder rational → R.State → ℕ
  get_num b s = R.get_data_field_mut b.builder u32 0 s

  unfoldable pub set_num : Builder rational → ℕ → R.State → R.State
  set_num b value s = R.set_data_field b.builder u32 0 value s

  unfoldable pub get_den : Builder rational → R.State → ℕ
  get_den b s = R.get_data_field_mut b.builder u32 1 s

  unfoldable pub set_den : Builder rational → ℕ → R.State → R.State
  set_den b value s = R.set_data_field b.builder u32 1 value s
