-- ===== src/Calculator/Fields.antt =====
-- The structs of calculator.capnp with one data field: what is set is read back.
use capnproto_test.Base.{ℕ, ◌^◌, ◌<◌, ◌≡◌, known, arith}
use capnproto_test.Layout.{Layout}
use capnproto_test.Layout.Elements.{u16, f64}
use capnproto_test.Layout.Laws.{Content, IsLawful}
use capnproto_test.Struct.{Builder, builder_into_reader}
use capnproto_test.Struct.Fields.{HasRoom, get-set, read-into_reader}
use capnproto_test.Calculator.Operators.{Operator, to_u16}
use capnproto_test.Calculator.Operators.Numbers.{to_u16-lt, from_u16-to_u16}
use capnproto_test.Calculator.GetOperatorParams
use capnproto_test.Calculator.GetOperatorParams.{get_operator_params}
use capnproto_test.Calculator.GetOperatorParams.Reader as OperatorReader
use capnproto_test.Calculator.GetOperatorParams.Builder as OperatorBuilder
use capnproto_test.Calculator.Value.ReadResults
use capnproto_test.Calculator.Value.ReadResults.{read_results}
use capnproto_test.Calculator.Value.ReadResults.Reader as ReadReader
use capnproto_test.Calculator.Value.ReadResults.Builder as ReadBuilder
use capnproto_test.Calculator.Function.CallResults
use capnproto_test.Calculator.Function.CallResults.{call_results}
use capnproto_test.Calculator.Function.CallResults.Reader as CallReader
use capnproto_test.Calculator.Function.CallResults.Builder as CallBuilder

module _ ⦃R : Layout⦄ {C : Content R} (L : IsLawful R C) where
  -- The operator that `set_op` writes into parameters of `getOperator` with room is the one that
  -- `get_op` gives, as a number that the schema knows, of the builder and of a reader of it.
  pub get_operator_params_op_lem :
      (b : Builder get_operator_params) (op : Operator) (s : R.State)
      → HasRoom C b
      → let t = OperatorBuilder.set_op b op s in
        (OperatorBuilder.get_op b t ≡ known op)
        × (OperatorReader.get_op (GetOperatorParams.builder_impls.into_reader b t) ≡ known op)
  unfolding OperatorBuilder.set_op OperatorBuilder.get_op OperatorReader.get_op builder_into_reader
  get_operator_params_op_lem b op s room =
      let t = R.set_data_field b.builder u16 0 (to_u16 op) s in
      let field = get-set L b room u16 0 (to_u16 op) s (omega arith) (to_u16-lt op) in
      (
        ground (arith, field, from_u16-to_u16 op),
        ground (arith, field, from_u16-to_u16 op, read-into_reader L b room u16 0 t (omega arith)),
      )

  -- A number below 2 ^ 64 that `set_value` writes into results of `read` with room is the one that
  -- `get_value` gives, bit for bit, of the builder and of a reader of it.
  pub read_results_value_lem :
      (b : Builder read_results) (v : ℕ) (s : R.State)
      → HasRoom C b
      → v < 2 ^ 64
      → let t = ReadBuilder.set_value b v s in
        (ReadBuilder.get_value b t ≡ v)
        × (ReadReader.get_value (ReadResults.builder_impls.into_reader b t) ≡ v)
  unfolding ReadBuilder.set_value ReadBuilder.get_value ReadReader.get_value builder_into_reader
  read_results_value_lem b v s room small =
      let t = R.set_data_field b.builder f64 0 v s in
      let field = get-set L b room f64 0 v s (omega arith) small in
      (field, ground (arith, field, read-into_reader L b room f64 0 t (omega arith)))

  -- A number below 2 ^ 64 that `set_value` writes into results of `call` with room is the one that
  -- `get_value` gives, bit for bit, of the builder and of a reader of it.
  pub call_results_value_lem :
      (b : Builder call_results) (v : ℕ) (s : R.State)
      → HasRoom C b
      → v < 2 ^ 64
      → let t = CallBuilder.set_value b v s in
        (CallBuilder.get_value b t ≡ v)
        × (CallReader.get_value (CallResults.builder_impls.into_reader b t) ≡ v)
  unfolding CallBuilder.set_value CallBuilder.get_value CallReader.get_value builder_into_reader
  call_results_value_lem b v s room small =
      let t = R.set_data_field b.builder f64 0 v s in
      let field = get-set L b room f64 0 v s (omega arith) small in
      (field, ground (arith, field, read-into_reader L b room f64 0 t (omega arith)))
