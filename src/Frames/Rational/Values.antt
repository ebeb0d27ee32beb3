-- ===== src/Frames/Rational/Values.antt =====
-- The accessors of `rational` against a record of its values.
use capnproto_test.Base.{ℕ, ◌^◌, ◌<◌, ◌≡◌, arith}
use capnproto_test.Layout.{Layout}
use capnproto_test.Layout.Elements.{u32, bits}
use capnproto_test.Layout.Laws.{Content, IsLawful}
use capnproto_test.Struct.{Reader, Builder, builder_into_reader}
use capnproto_test.Struct.Fields.{HasRoom, get-set, get-set_other, read-into_reader}
use capnproto_test.Frames.Rational.{rational, builder_impls}
use capnproto_test.Frames.Rational.Reader
use capnproto_test.Frames.Rational.Builder

-- The values of the data fields.
pub record Values : Type 0 where
  pub num : ℕ
  pub den : ℕ

module _ ⦃R : Layout⦄ where
  unfoldable pub values : Builder rational → R.State → Values
  unfolding Builder.get_num Builder.get_den
  values b s = record { num = Builder.get_num b s; den = Builder.get_den b s }

  unfoldable pub read_values : Reader rational → Values
  unfolding Reader.get_num Reader.get_den
  read_values r = record { num = Reader.get_num r; den = Reader.get_den r }

module _ ⦃R : Layout⦄ {C : Content R} (L : IsLawful R C) (b : Builder rational)
    (room : HasRoom C b) where
  pub values-set_num :
      (v : ℕ) (s : R.State)
      → v < 2 ^ bits u32
      → values b (Builder.set_num b v s) ≡ record (values b s) { num = v }
  unfolding values Builder.set_num
  values-set_num v s h = ground (
    arith,
    get-set L b room u32 0 v s (omega arith) h,
    get-set_other L b room u32 u32 0 1 v s (omega arith) (omega arith) (omega arith),
  )

  pub values-set_den :
      (v : ℕ) (s : R.State)
      → v < 2 ^ bits u32
      → values b (Builder.set_den b v s) ≡ record (values b s) { den = v }
  unfolding values Builder.set_den
  values-set_den v s h = ground (
    arith,
    get-set L b room u32 1 v s (omega arith) h,
    get-set_other L b room u32 u32 1 0 v s (omega arith) (omega arith) (omega arith),
  )

  -- A reader of the builder has its values.
  pub read_values-into_reader :
      (s : R.State) → read_values (builder_impls.into_reader b s) ≡ values b s
  unfolding values read_values builder_into_reader
  read_values-into_reader s = ground (
    arith,
    read-into_reader L b room u32 0 s (omega arith),
    read-into_reader L b room u32 1 s (omega arith),
  )
