-- ===== src/Calculator/EvaluateResults.antt =====
-- `calculator::evaluate_results` of rust/src/schema/calculator_capnp.rs, lines 1329 to 1459.
pub mod Reader
pub mod Builder
use capnproto_test.Layout.{Layout, Owned}
use capnproto_test.Struct.{BuilderImpls, Pipeline, ReaderImpls}
use capnproto_test.Interface.{Client, client_impls}
use capnproto_test.Struct
use capnproto_test.Calculator.Value.Interface.{value}

-- `evaluate_results::Owned`, with the constants of `evaluate_results::_private`
abbrev pub evaluate_results : Owned
evaluate_results = record {
  struct_size = record { data_words = 0; pointers = 1 };
  type_id = 0x81b1_a3f5_5887_a611;
}

module _ ⦃R : Layout⦄ where
  -- The impls of `evaluate_results::Reader`, `evaluate_results::Builder` and `evaluate_results::Pipeline` that name no field.
  abbrev pub reader_impls : ReaderImpls evaluate_results
  reader_impls = Struct.reader_impls evaluate_results

  abbrev pub builder_impls : BuilderImpls evaluate_results
  builder_impls = Struct.builder_impls evaluate_results

  abbrev pub pipeline_new : R.TypelessPipeline → Pipeline evaluate_results
  pipeline_new = Struct.pipeline_new evaluate_results

  pub pipeline_get_value : Pipeline evaluate_results → Client value
  pipeline_get_value p = (client_impls value).new (R.as_cap (R.pipeline_pointer_field p.typeless 0))
