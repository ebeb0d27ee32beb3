-- ===== src/Calculator/GetOperatorResults.antt =====
-- `calculator::get_operator_results` of rust/src/schema/calculator_capnp.rs, lines 1876 to 2006.
pub mod Reader
pub mod Builder
use capnproto_test.Layout.{Layout, Owned}
use capnproto_test.Struct.{BuilderImpls, Pipeline, ReaderImpls}
use capnproto_test.Interface.{Client, client_impls}
use capnproto_test.Struct
use capnproto_test.Calculator.Function.Interface.{function}

-- `get_operator_results::Owned`, with the constants of `get_operator_results::_private`
abbrev pub get_operator_results : Owned
get_operator_results = record {
  struct_size = record { data_words = 0; pointers = 1 };
  type_id = 0xd18f_bb77_63c0_8c20;
}

module _ ⦃R : Layout⦄ where
  -- The impls of `get_operator_results::Reader`, `get_operator_results::Builder` and `get_operator_results::Pipeline` that name no field.
  abbrev pub reader_impls : ReaderImpls get_operator_results
  reader_impls = Struct.reader_impls get_operator_results

  abbrev pub builder_impls : BuilderImpls get_operator_results
  builder_impls = Struct.builder_impls get_operator_results

  abbrev pub pipeline_new : R.TypelessPipeline → Pipeline get_operator_results
  pipeline_new = Struct.pipeline_new get_operator_results

  pub pipeline_get_func : Pipeline get_operator_results → Client function
  pipeline_get_func p =
      (client_impls function).new (R.as_cap (R.pipeline_pointer_field p.typeless 0))
