-- ===== src/Calculator/Function/CallParams/Builder.antt =====
-- The accessors of `calculator::function::call_params::Builder` in rust/src/schema/calculator_capnp.rs.
use capnproto_test.Base.{Bool, Command, false, not, ℕ}
use capnproto_test.Layout.{Layout}
use capnproto_test.Layout.Elements.{f64}
use capnproto_test.Struct.{Builder}
use capnproto_test.Calculator.Function.CallParams.{call_params}

module _ ⦃R : Layout⦄ where
  unfoldable pub get_params :
      Builder call_params → Command R.State R.Error (R.PrimitiveListBuilder f64)
  get_params b = R.get_primitive_list_mut f64 (R.get_pointer_field_mut b.builder 0)

  unfoldable pub set_params :
      Builder call_params → R.PrimitiveListReader f64 → Command R.State R.Error (Unit {0})
  set_params b value = R.set_primitive_list f64 (R.get_pointer_field_mut b.builder 0) value false

  unfoldable pub init_params :
      Builder call_params → ℕ → R.State → R.PrimitiveListBuilder f64 × R.State
  init_params b size s = R.init_primitive_list f64 (R.get_pointer_field_mut b.builder 0) size s

  unfoldable pub has_params : Builder call_params → R.State → Bool
  has_params b s = not (R.is_null_mut (R.get_pointer_field_mut b.builder 0) s)
