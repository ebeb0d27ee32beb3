-- ===== src/Calculator/DefFunctionParams/Values.antt =====
-- The accessors of `def_function_params` against a record of its values.
use capnproto_test.Base.{ℕ, ◌^◌, ◌<◌, ◌≡◌, Bool, true, false, arith}
use capnproto_test.Layout.{Layout}
use capnproto_test.Layout.Elements.{i32, bits}
use capnproto_test.Layout.Laws.{Content, IsLawful, Keeps}
use capnproto_test.Struct.{Reader, Builder, builder_into_reader}
use capnproto_test.Struct.Fields.{
  HasRoom, get-set, is_null-set, read-into_reader, is_null-read, kept_field,
}
use capnproto_test.Calculator.DefFunctionParams.{def_function_params, builder_impls}
use capnproto_test.Calculator.DefFunctionParams.Reader
use capnproto_test.Calculator.DefFunctionParams.Builder

-- The values of the data fields, and which pointers are set.
pub record Values : Type 0 where
  pub param_count : ℕ
  pub has_body : Bool

module _ ⦃R : Layout⦄ where
  unfoldable pub values : Builder def_function_params → R.State → Values
  unfolding Builder.get_param_count Builder.has_body
  values b s = record { param_count = Builder.get_param_count b s; has_body = Builder.has_body b s }

  unfoldable pub read_values : Reader def_function_params → Values
  unfolding Reader.get_param_count Reader.has_body
  read_values r = record { param_count = Reader.get_param_count r; has_body = Reader.has_body r }

module _ ⦃R : Layout⦄ {C : Content R} (L : IsLawful R C) (b : Builder def_function_params)
    (room : HasRoom C b) where
  pub values-set_param_count :
      (v : ℕ) (s : R.State)
      → v < 2 ^ bits i32
      → values b (Builder.set_param_count b v s) ≡ record (values b s) { param_count = v }
  unfolding values Builder.set_param_count
  values-set_param_count v s h = ground (
    arith,
    get-set L b room i32 0 v s (omega arith) h,
    is_null-set L b room i32 0 v 0 s (omega arith),
  )

  -- A write through the pointer `body` that leaves it not null.
  pub values_body :
      (s t : R.State)
      → Keeps R C b.builder 0 s t
      → R.is_null_mut (R.get_pointer_field_mut b.builder 0) t ≡ false
      → values b t ≡ record (values b s) { has_body = true }
  unfolding values
  values_body s t keeps filled = ground (arith, kept_field L b room keeps i32 0 (omega arith))

  -- A reader of the builder has its values.
  pub read_values-into_reader :
      (s : R.State) → read_values (builder_impls.into_reader b s) ≡ values b s
  unfolding values read_values builder_into_reader
  read_values-into_reader s = ground (
    arith,
    read-into_reader L b room i32 0 s (omega arith),
    is_null-read L b room 0 s (omega arith),
  )
