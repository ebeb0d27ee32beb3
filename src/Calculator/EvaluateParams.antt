-- ===== src/Calculator/EvaluateParams.antt =====
-- `calculator::evaluate_params` of rust/src/schema/calculator_capnp.rs, lines 1187 to 1327.
pub mod Reader
pub mod Builder
use capnproto_test.Layout.{Layout, Owned}
use capnproto_test.Struct.{BuilderImpls, Pipeline, ReaderImpls}
use capnproto_test.Calculator.Expression
use capnproto_test.Struct
use capnproto_test.Calculator.Expression.{expression}

-- `evaluate_params::Owned`, with the constants of `evaluate_params::_private`
abbrev pub evaluate_params : Owned
evaluate_params = record {
  struct_size = record { data_words = 0; pointers = 1 };
  type_id = 0xbb0e_aae1_557a_36d4;
}

module _ ⦃R : Layout⦄ where
  -- The impls of `evaluate_params::Reader`, `evaluate_params::Builder` and `evaluate_params::Pipeline` that name no field.
  abbrev pub reader_impls : ReaderImpls evaluate_params
  reader_impls = Struct.reader_impls evaluate_params

  abbrev pub builder_impls : BuilderImpls evaluate_params
  builder_impls = Struct.builder_impls evaluate_params

  abbrev pub pipeline_new : R.TypelessPipeline → Pipeline evaluate_params
  pipeline_new = Struct.pipeline_new evaluate_params

  pub pipeline_get_expression : Pipeline evaluate_params → Pipeline expression
  pipeline_get_expression p = Expression.pipeline_new (R.pipeline_pointer_field p.typeless 0)
