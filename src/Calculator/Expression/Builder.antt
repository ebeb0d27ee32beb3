-- ===== src/Calculator/Expression/Builder.antt =====
-- The accessors of `calculator::expression::Builder` in rust/src/schema/calculator_capnp.rs.
use capnproto_test.Base.{
  Command, InSchema, attempt, if◌then◌else◌, known, not_in_schema, ok, ℕ, ◌==◌, ◌>>=◌,
}
use capnproto_test.Layout.{Layout}
use capnproto_test.Layout.Elements.{f64, u16, u32}
use capnproto_test.Struct.{Builder}
use capnproto_test.Interface.{Client, read_client_mut}
use capnproto_test.Calculator.Expression.Call
use capnproto_test.Calculator.Expression.{expression}
use capnproto_test.Calculator.Expression.Call.{call}
use capnproto_test.Calculator.Expression.Which.{
  WhichBuilder, call_case, literal, parameter, previous_result,
}
use capnproto_test.Calculator.Value.Interface.{value}

module _ ⦃R : Layout⦄ where
  unfoldable pub set_literal : Builder expression → ℕ → R.State → R.State
  set_literal b value s =
      R.set_data_field b.builder f64 0 value (R.set_data_field b.builder u16 4 0 s)

  unfoldable pub set_previous_result : Builder expression → Client value → R.State → R.State
  set_previous_result b v s =
      R.set_capability (R.get_pointer_field_mut b.builder 0) (R.hook v.client)
        (R.set_data_field b.builder u16 4 1 s)

  unfoldable pub set_parameter : Builder expression → ℕ → R.State → R.State
  set_parameter b value s =
      R.set_data_field b.builder u32 0 value (R.set_data_field b.builder u16 4 2 s)

  unfoldable pub init_call : Builder expression → R.State → Builder call × R.State
  init_call b s =
      let t = R.set_data_field b.builder u16 4 3 s in
      let u = R.clear (R.get_pointer_field_mut b.builder 0) t in
      let v = R.clear (R.get_pointer_field_mut b.builder 1) u in
      (Call.builder_impls.new b.builder, v)

  unfoldable pub which_of : Builder expression → ℕ → Command R.State R.Error (InSchema WhichBuilder)
  which_of b x s =
      if x == 0
      then ok (known (literal (R.get_data_field_mut b.builder f64 0 s))) s
      else if x == 1
      then (do
        a ← attempt (read_client_mut value (R.get_pointer_field_mut b.builder 0))
        ok (known (previous_result a)))
          s
      else if x == 2
      then ok (known (parameter (R.get_data_field_mut b.builder u32 0 s))) s
      else if x == 3
      then ok (known (call_case (Call.builder_impls.new b.builder))) s
      else ok (not_in_schema x) s

  unfoldable pub which : Builder expression → Command R.State R.Error (InSchema WhichBuilder)
  unfolding which_of
  which b s = which_of b (R.get_data_field_mut b.builder u16 4 s) s
