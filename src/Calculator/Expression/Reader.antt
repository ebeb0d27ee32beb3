-- ===== src/Calculator/Expression/Reader.antt =====
-- The accessors of `calculator::expression::Reader` in rust/src/schema/calculator_capnp.rs.
use capnproto_test.Base.{
  Command, InSchema, attempt, if◌then◌else◌, known, not_in_schema, ok, ℕ, ◌==◌, ◌>>=◌,
}
use capnproto_test.Layout.{Layout}
use capnproto_test.Layout.Elements.{f64, u16, u32}
use capnproto_test.Struct.{Reader}
use capnproto_test.Interface.{read_client}
use capnproto_test.Calculator.Expression.Call
use capnproto_test.Calculator.Expression.{expression}
use capnproto_test.Calculator.Expression.Which.{
  WhichReader, call_case, literal, parameter, previous_result,
}
use capnproto_test.Calculator.Value.Interface.{value}

module _ ⦃R : Layout⦄ where
  unfoldable pub which_of : Reader expression → ℕ → Command R.State R.Error (InSchema WhichReader)
  which_of r x s =
      if x == 0
      then ok (known (literal (R.get_data_field r.reader f64 0))) s
      else if x == 1
      then (do
        a ← attempt (read_client value (R.get_pointer_field r.reader 0))
        ok (known (previous_result a)))
          s
      else if x == 2
      then ok (known (parameter (R.get_data_field r.reader u32 0))) s
      else if x == 3
      then ok (known (call_case (Call.reader_impls.new r.reader))) s
      else ok (not_in_schema x) s

  unfoldable pub which : Reader expression → Command R.State R.Error (InSchema WhichReader)
  unfolding which_of
  which r s = which_of r (R.get_data_field r.reader u16 4) s
