-- ===== src/Tests/Calculator.antt =====
-- calculator_capnp.rs at concrete structs.
use capnproto_test.Base.{
  ◌≤◌, ◌≡◌, ◌↔◌, false, List, [], ◌∷◌, ok, Result, known, not_in_schema, arith,
}
use capnproto_test.Layout.Elements.{u16}
use capnproto_test.Layout.Laws.{null}
use capnproto_test.Layout.Memory.{empty}
use capnproto_test.Layout.Memory.Instance.{memory_layout, memory_content}
use capnproto_test.Layout.Memory.Lawful.{memory_layout-IsLawful}
use capnproto_test.Tests.Builders.{first, first-HasRoom, filled, reader_of}
use capnproto_test.Calculator.Operators.{multiply, divide, from_u16, to_u16}
use capnproto_test.Calculator.Operators.Numbers.{operator_from_u16_iff}
use capnproto_test.Calculator.Capabilities.{
  evaluate_results_value_lem, def_function_results_func_lem, get_operator_results_func_lem,
  call_function_lem,
}
use capnproto_test.Calculator.Fields.{
  get_operator_params_op_lem, read_results_value_lem, call_results_value_lem,
}
use capnproto_test.Calculator.Expression
use capnproto_test.Calculator.Expression.{expression}
use capnproto_test.Calculator.Expression.Which.{literal, previous_result, parameter, call_case}
use capnproto_test.Calculator.Expression.Reader as ExpressionReader
use capnproto_test.Calculator.Expression.Builder as ExpressionBuilder
use capnproto_test.Calculator.Expression.Union.{
  expression_not_in_schema, set_literal-which, set_parameter-which, set_previous_result-which,
  init_call_lem,
}
use capnproto_test.Calculator.EvaluateResults
use capnproto_test.Calculator.EvaluateResults.{evaluate_results}
use capnproto_test.Calculator.EvaluateResults.Reader as EvaluateResultsReader
use capnproto_test.Calculator.EvaluateResults.Builder as EvaluateResultsBuilder
use capnproto_test.Calculator.DefFunctionResults
use capnproto_test.Calculator.DefFunctionResults.{def_function_results}
use capnproto_test.Calculator.DefFunctionResults.Reader as DefFunctionResultsReader
use capnproto_test.Calculator.DefFunctionResults.Builder as DefFunctionResultsBuilder
use capnproto_test.Calculator.GetOperatorResults
use capnproto_test.Calculator.GetOperatorResults.{get_operator_results}
use capnproto_test.Calculator.GetOperatorResults.Reader as GetOperatorResultsReader
use capnproto_test.Calculator.GetOperatorResults.Builder as GetOperatorResultsBuilder
use capnproto_test.Calculator.Expression.Call
use capnproto_test.Calculator.Expression.Call.{call}
use capnproto_test.Calculator.Expression.Call.Reader as ExpressionCallReader
use capnproto_test.Calculator.Expression.Call.Builder as ExpressionCallBuilder
use capnproto_test.Calculator.GetOperatorParams
use capnproto_test.Calculator.GetOperatorParams.{get_operator_params}
use capnproto_test.Calculator.GetOperatorParams.Reader as GetOperatorParamsReader
use capnproto_test.Calculator.GetOperatorParams.Builder as GetOperatorParamsBuilder
use capnproto_test.Calculator.Value.ReadResults
use capnproto_test.Calculator.Value.ReadResults.{read_results}
use capnproto_test.Calculator.Value.ReadResults.Reader as ValueReadResultsReader
use capnproto_test.Calculator.Value.ReadResults.Builder as ValueReadResultsBuilder
use capnproto_test.Calculator.Function.CallResults
use capnproto_test.Calculator.Function.CallResults.{call_results}
use capnproto_test.Calculator.Function.CallResults.Reader as FunctionCallResultsReader
use capnproto_test.Calculator.Function.CallResults.Builder as FunctionCallResultsBuilder
use capnproto_test.Calculator.DefFunctionParams
use capnproto_test.Calculator.DefFunctionParams.{def_function_params}
use capnproto_test.Calculator.DefFunctionParams.Values as DefFunctionValues
use capnproto_test.Calculator.DefFunctionParams.Writes as DefFunctionWrites

evaluate_results_value_example :
    let t =
      EvaluateResultsBuilder.set_value
        (first evaluate_results)
        (record { client = 9 })
        (filled 3) in
    (EvaluateResultsBuilder.get_value (first evaluate_results) t ≡ ok (record { client = 9 }) t)
    × (EvaluateResultsReader.get_value
          (EvaluateResults.builder_impls.into_reader (first evaluate_results) t)
          t
        ≡ ok (record { client = 9 }) t)
evaluate_results_value_example =
    evaluate_results_value_lem memory_layout-IsLawful (first evaluate_results)
      (record { client = 9 }) (filled 3) (first-HasRoom evaluate_results)

def_function_results_func_example :
    let t =
      DefFunctionResultsBuilder.set_func
        (first def_function_results)
        (record { client = 9 })
        (filled 3) in
    (DefFunctionResultsBuilder.get_func (first def_function_results) t
      ≡ ok (record { client = 9 }) t)
    × (DefFunctionResultsReader.get_func
          (DefFunctionResults.builder_impls.into_reader (first def_function_results) t)
          t
        ≡ ok (record { client = 9 }) t)
def_function_results_func_example =
    def_function_results_func_lem memory_layout-IsLawful (first def_function_results)
      (record { client = 9 }) (filled 3) (first-HasRoom def_function_results)

get_operator_results_func_example :
    let t =
      GetOperatorResultsBuilder.set_func
        (first get_operator_results)
        (record { client = 9 })
        (filled 3) in
    (GetOperatorResultsBuilder.get_func (first get_operator_results) t
      ≡ ok (record { client = 9 }) t)
    × (GetOperatorResultsReader.get_func
          (GetOperatorResults.builder_impls.into_reader (first get_operator_results) t)
          t
        ≡ ok (record { client = 9 }) t)
get_operator_results_func_example =
    get_operator_results_func_lem memory_layout-IsLawful (first get_operator_results)
      (record { client = 9 }) (filled 3) (first-HasRoom get_operator_results)

call_function_example :
    let t = ExpressionCallBuilder.set_function (first call) (record { client = 9 }) (filled 3) in
    (ExpressionCallBuilder.get_function (first call) t ≡ ok (record { client = 9 }) t)
    × (ExpressionCallReader.get_function (Call.builder_impls.into_reader (first call) t) t
        ≡ ok (record { client = 9 }) t)
call_function_example =
    call_function_lem memory_layout-IsLawful (first call) (record { client = 9 }) (filled 3)
      (first-HasRoom call)

get_operator_params_op_example :
    let t = GetOperatorParamsBuilder.set_op (first get_operator_params) multiply (filled 3) in
    (GetOperatorParamsBuilder.get_op (first get_operator_params) t ≡ known multiply)
    × (GetOperatorParamsReader.get_op
          (GetOperatorParams.builder_impls.into_reader (first get_operator_params) t)
        ≡ known multiply)
get_operator_params_op_example =
    get_operator_params_op_lem memory_layout-IsLawful (first get_operator_params) multiply
      (filled 3) (first-HasRoom get_operator_params)

read_results_value_example :
    let t = ValueReadResultsBuilder.set_value (first read_results) 42 (filled 3) in
    (ValueReadResultsBuilder.get_value (first read_results) t ≡ 42)
    × (ValueReadResultsReader.get_value
          (ReadResults.builder_impls.into_reader (first read_results) t)
        ≡ 42)
read_results_value_example =
    read_results_value_lem memory_layout-IsLawful (first read_results) 42 (filled 3)
      (first-HasRoom read_results) (omega arith)

call_results_value_example :
    let t = FunctionCallResultsBuilder.set_value (first call_results) 42 (filled 3) in
    (FunctionCallResultsBuilder.get_value (first call_results) t ≡ 42)
    × (FunctionCallResultsReader.get_value
          (CallResults.builder_impls.into_reader (first call_results) t)
        ≡ 42)
call_results_value_example =
    call_results_value_lem memory_layout-IsLawful (first call_results) 42 (filled 3)
      (first-HasRoom call_results) (omega arith)

abbrev def_function_writes : List DefFunctionWrites.Write
def_function_writes = DefFunctionWrites.init_body ∷ DefFunctionWrites.set_param_count 2 ∷ []

write_def_function_params_example :
    let t =
      DefFunctionWrites.write_def_function_params
        (first def_function_params)
        def_function_writes
        (filled 7) in
    (DefFunctionValues.values (first def_function_params) t
      ≡ DefFunctionWrites.apply_all def_function_writes
          (DefFunctionValues.values (first def_function_params) (filled 7)))
    × (DefFunctionValues.read_values
          (DefFunctionParams.builder_impls.into_reader (first def_function_params) t)
        ≡ DefFunctionWrites.apply_all def_function_writes
            (DefFunctionValues.values (first def_function_params) (filled 7)))
    × DefFunctionWrites.ShowsBody memory_content
        (first def_function_params)
        (DefFunctionWrites.any_makes_body def_function_writes)
        (filled 7)
        t
write_def_function_params_example =
    DefFunctionWrites.write_def_function_params_lem memory_layout-IsLawful
      (first def_function_params) (first-HasRoom def_function_params) def_function_writes (filled 7)
      (tt, (omega arith, tt))

set_literal-which_example :
    let t = ExpressionBuilder.set_literal (first expression) 123 (filled 3) in
    (ExpressionBuilder.which (first expression) t ≡ ok (known (literal 123)) t)
    × (ExpressionReader.which (Expression.builder_impls.into_reader (first expression) t) t
        ≡ ok (known (literal 123)) t)
set_literal-which_example =
    set_literal-which memory_layout-IsLawful (first expression) (first-HasRoom expression)
      (filled 3) 123 (omega arith)

set_parameter-which_example :
    let t = ExpressionBuilder.set_parameter (first expression) 3 (filled 3) in
    (ExpressionBuilder.which (first expression) t ≡ ok (known (parameter 3)) t)
    × (ExpressionReader.which (Expression.builder_impls.into_reader (first expression) t) t
        ≡ ok (known (parameter 3)) t)
set_parameter-which_example =
    set_parameter-which memory_layout-IsLawful (first expression) (first-HasRoom expression)
      (filled 3) 3 (omega arith)

set_previous_result-which_example :
    let t =
      ExpressionBuilder.set_previous_result (first expression) (record { client = 9 }) (filled 3) in
    (ExpressionBuilder.which (first expression) t
      ≡ ok (known (previous_result (Result.ok (record { client = 9 })))) t)
    × (ExpressionReader.which (Expression.builder_impls.into_reader (first expression) t) t
        ≡ ok (known (previous_result (Result.ok (record { client = 9 })))) t)
set_previous_result-which_example =
    set_previous_result-which memory_layout-IsLawful (first expression) (first-HasRoom expression)
      (filled 3) (record { client = 9 })

init_call_example :
    let made = ExpressionBuilder.init_call (first expression) (filled 3) in
    (made.0.builder ≡ (first expression).builder)
    × (ExpressionBuilder.which (first expression) made.1 ≡ ok (known (call_case made.0)) made.1)
    × (ExpressionReader.which
          (Expression.builder_impls.into_reader (first expression) made.1)
          made.1
        ≡ ok (known (call_case (Call.builder_impls.into_reader made.0 made.1))) made.1)
    × (memory_content.target
          (memory_layout.get_pointer_field_mut (first expression).builder 0)
          made.1
        ≡ null)
    × (ExpressionCallBuilder.has_params made.0 made.1 ≡ false)
init_call_example =
    init_call_lem memory_layout-IsLawful (first expression) (first-HasRoom expression) (filled 3)

expression_not_in_schema_example :
    (ExpressionReader.which (reader_of expression 4) empty
      ≡ ok
          (not_in_schema (memory_layout.get_data_field (reader_of expression 4).reader u16 4))
          empty)
    ↔ (4 ≤ memory_layout.get_data_field (reader_of expression 4).reader u16 4)
expression_not_in_schema_example = expression_not_in_schema (reader_of expression 4) empty

operator_example :
    ((from_u16 3 ≡ known divide) ↔ (to_u16 divide ≡ 3)) × ((from_u16 3 ≡ not_in_schema 3) ↔ (4 ≤ 3))
operator_example = operator_from_u16_iff 3 divide
