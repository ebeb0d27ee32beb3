-- ===== src/Calculator/Function/CallParams.antt =====
-- `calculator::function::call_params` of rust/src/schema/calculator_capnp.rs, lines 889 to 1026.
pub mod Reader
pub mod Builder
use capnproto_test.Layout.{Layout, Owned}
use capnproto_test.Struct.{BuilderImpls, Pipeline, ReaderImpls}
use capnproto_test.Struct

-- `call_params::Owned`, with the constants of `call_params::_private`
abbrev pub call_params : Owned
call_params = record {
  struct_size = record { data_words = 0; pointers = 1 };
  type_id = 0xb191_60df_70b8_7717;
}

module _ ⦃R : Layout⦄ where
  -- The impls of `call_params::Reader`, `call_params::Builder` and `call_params::Pipeline` that name no field.
  abbrev pub reader_impls : ReaderImpls call_params
  reader_impls = Struct.reader_impls call_params

  abbrev pub builder_impls : BuilderImpls call_params
  builder_impls = Struct.builder_impls call_params

  abbrev pub pipeline_new : R.TypelessPipeline → Pipeline call_params
  pipeline_new = Struct.pipeline_new call_params
