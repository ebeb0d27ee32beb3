-- ===== src/Calculator/Capabilities.antt =====
-- Capabilities in the structs of calculator.capnp: a client that is put into a field is the one that is read back.
use capnproto_test.Base.{ℕ, ◌<◌, ◌≡◌, ◌∙◌, ap, ok, arith}
use capnproto_test.Layout.{Layout, Owned}
use capnproto_test.Layout.Laws.{Content, IsLawful}
use capnproto_test.Struct.{Builder, builder_into_reader}
use capnproto_test.Struct.Fields.{HasRoom}
use capnproto_test.Interface.{
  Interface, Client, read_client, read_client_mut, read_client-ok, read_client_mut-ok,
}
use capnproto_test.Calculator.Value.Interface.{value}
use capnproto_test.Calculator.Function.Interface.{function}
use capnproto_test.Calculator.EvaluateResults
use capnproto_test.Calculator.EvaluateResults.{evaluate_results}
use capnproto_test.Calculator.EvaluateResults.Reader as EvaluateResultsReader
use capnproto_test.Calculator.EvaluateResults.Builder as EvaluateResultsBuilder
use capnproto_test.Calculator.DefFunctionResults
use capnproto_test.Calculator.DefFunctionResults.{def_function_results}
use capnproto_test.Calculator.DefFunctionResults.Reader as DefFunctionResultsReader
use capnproto_test.Calculator.DefFunctionResults.Builder as DefFunctionResultsBuilder
use capnproto_test.Calculator.GetOperatorResults
use capnproto_test.Calculator.GetOperatorResults.{get_operator_results}
use capnproto_test.Calculator.GetOperatorResults.Reader as GetOperatorResultsReader
use capnproto_test.Calculator.GetOperatorResults.Builder as GetOperatorResultsBuilder
use capnproto_test.Calculator.Expression.Call
use capnproto_test.Calculator.Expression.Call.{call}
use capnproto_test.Calculator.Expression.Call.Reader as ExpressionCallReader
use capnproto_test.Calculator.Expression.Call.Builder as ExpressionCallBuilder

module _ ⦃R : Layout⦄ {C : Content R} (L : IsLawful R C) where
  module _ (i : Interface) (c : Client i) (s : R.State) where
    read_client_mut-set_capability :
        (p : R.PointerBuilder)
        → let t = R.set_capability p (R.hook c.client) s in read_client_mut i p t ≡ ok c t
    read_client_mut-set_capability p =
        let t = R.set_capability p (R.hook c.client) s in
        read_client_mut-ok i p t _
          (L.get_capability-target p t (L.set_capability-target p (R.hook c.client) s))
        ∙ ap (λ x. ok (record { client = x }) t) (L.client_new-hook c.client)

    read_client-set_capability :
        {o : Owned} (b : Builder o) (j : ℕ)
        → HasRoom C b
        → j < o.struct_size.pointers
        → let t = R.set_capability (R.get_pointer_field_mut b.builder j) (R.hook c.client) s in
          read_client i (R.get_pointer_field (R.into_reader b.builder t) j) t ≡ ok c t
    read_client-set_capability b j room small =
        let p = R.get_pointer_field_mut b.builder j in
        let t = R.set_capability p (R.hook c.client) s in
        read_client-ok i _ t _ (
          L.get_capability-into_reader b.builder j t (omega (arith, room.pointer_room))
            (L.set_capability-target p (R.hook c.client) s))
        ∙ ap (λ x. ok (record { client = x }) t) (L.client_new-hook c.client)

  -- The client that `set_value` puts into the results of `evaluate` with room is the one that
  -- `get_value` gives, of the builder and of a reader of it.
  pub evaluate_results_value_lem :
      (b : Builder evaluate_results) (c : Client value) (s : R.State)
      → HasRoom C b
      → let t = EvaluateResultsBuilder.set_value b c s in
        (EvaluateResultsBuilder.get_value b t ≡ ok c t)
        × (EvaluateResultsReader.get_value (EvaluateResults.builder_impls.into_reader b t) t
            ≡ ok c t)
  unfolding EvaluateResultsBuilder.set_value EvaluateResultsBuilder.get_value
      EvaluateResultsReader.get_value builder_into_reader
  evaluate_results_value_lem b c s room = (
    read_client_mut-set_capability value c s (R.get_pointer_field_mut b.builder 0),
    read_client-set_capability value c s b 0 room (omega arith),
  )

  -- The client that `set_func` puts into the results of `defFunction` with room is the one that
  -- `get_func` gives, of the builder and of a reader of it.
  pub def_function_results_func_lem :
      (b : Builder def_function_results) (c : Client function) (s : R.State)
      → HasRoom C b
      → let t = DefFunctionResultsBuilder.set_func b c s in
        (DefFunctionResultsBuilder.get_func b t ≡ ok c t)
        × (DefFunctionResultsReader.get_func (DefFunctionResults.builder_impls.into_reader b t) t
            ≡ ok c t)
  unfolding DefFunctionResultsBuilder.set_func DefFunctionResultsBuilder.get_func
      DefFunctionResultsReader.get_func builder_into_reader
  def_function_results_func_lem b c s room = (
    read_client_mut-set_capability function c s (R.get_pointer_field_mut b.builder 0),
    read_client-set_capability function c s b 0 room (omega arith),
  )

  -- The client that `set_func` puts into the results of `getOperator` with room is the one that
  -- `get_func` gives, of the builder and of a reader of it.
  pub get_operator_results_func_lem :
      (b : Builder get_operator_results) (c : Client function) (s : R.State)
      → HasRoom C b
      → let t = GetOperatorResultsBuilder.set_func b c s in
        (GetOperatorResultsBuilder.get_func b t ≡ ok c t)
        × (GetOperatorResultsReader.get_func (GetOperatorResults.builder_impls.into_reader b t) t
            ≡ ok c t)
  unfolding GetOperatorResultsBuilder.set_func GetOperatorResultsBuilder.get_func
      GetOperatorResultsReader.get_func builder_into_reader
  get_operator_results_func_lem b c s room = (
    read_client_mut-set_capability function c s (R.get_pointer_field_mut b.builder 0),
    read_client-set_capability function c s b 0 room (omega arith),
  )

  -- The client that `set_function` puts into a call expression with room is the one that
  -- `get_function` gives, of the builder and of a reader of it.
  pub call_function_lem :
      (b : Builder call) (c : Client function) (s : R.State)
      → HasRoom C b
      → let t = ExpressionCallBuilder.set_function b c s in
        (ExpressionCallBuilder.get_function b t ≡ ok c t)
        × (ExpressionCallReader.get_function (Call.builder_impls.into_reader b t) t ≡ ok c t)
  unfolding ExpressionCallBuilder.set_function ExpressionCallBuilder.get_function
      ExpressionCallReader.get_function builder_into_reader
  call_function_lem b c s room = (
    read_client_mut-set_capability function c s (R.get_pointer_field_mut b.builder 0),
    read_client-set_capability function c s b 0 room (omega arith),
  )
