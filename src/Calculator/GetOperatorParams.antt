-- ===== src/Calculator/GetOperatorParams.antt =====
-- `calculator::get_operator_params` of rust/src/schema/calculator_capnp.rs, lines 1747 to 1874.
pub mod Reader
pub mod Builder
use capnproto_test.Layout.{Layout, Owned}
use capnproto_test.Struct.{BuilderImpls, Pipeline, ReaderImpls}
use capnproto_test.Struct

-- `get_operator_params::Owned`, with the constants of `get_operator_params::_private`
abbrev pub get_operator_params : Owned
get_operator_params = record {
  struct_size = record { data_words = 1; pointers = 0 };
  type_id = 0x8a8d_ceb4_f4a3_c530;
}

module _ ⦃R : Layout⦄ where
  -- The impls of `get_operator_params::Reader`, `get_operator_params::Builder` and `get_operator_params::Pipeline` that name no field.
  abbrev pub reader_impls : ReaderImpls get_operator_params
  reader_impls = Struct.reader_impls get_operator_params

  abbrev pub builder_impls : BuilderImpls get_operator_params
  builder_impls = Struct.builder_impls get_operator_params

  abbrev pub pipeline_new : R.TypelessPipeline → Pipeline get_operator_params
  pipeline_new = Struct.pipeline_new get_operator_params
