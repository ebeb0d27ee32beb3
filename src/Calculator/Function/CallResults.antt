-- ===== src/Calculator/Function/CallResults.antt =====
-- `calculator::function::call_results` of rust/src/schema/calculator_capnp.rs, lines 1028 to 1155.
pub mod Reader
pub mod Builder
use capnproto_test.Layout.{Layout, Owned}
use capnproto_test.Struct.{BuilderImpls, Pipeline, ReaderImpls}
use capnproto_test.Struct

-- `call_results::Owned`, with the constants of `call_results::_private`
abbrev pub call_results : Owned
call_results = record {
  struct_size = record { data_words = 1; pointers = 0 };
  type_id = 0xc0e0_abf7_6914_dead;
}

module _ ⦃R : Layout⦄ where
  -- The impls of `call_results::Reader`, `call_results::Builder` and `call_results::Pipeline` that name no field.
  abbrev pub reader_impls : ReaderImpls call_results
  reader_impls = Struct.reader_impls call_results

  abbrev pub builder_impls : BuilderImpls call_results
  builder_impls = Struct.builder_impls call_results

  abbrev pub pipeline_new : R.TypelessPipeline → Pipeline call_results
  pipeline_new = Struct.pipeline_new call_results
