-- ===== src/Calculator/Value/ReadResults.antt =====
-- `calculator::value::read_results` of rust/src/schema/calculator_capnp.rs, lines 670 to 797.
pub mod Reader
pub mod Builder
use capnproto_test.Layout.{Layout, Owned}
use capnproto_test.Struct.{BuilderImpls, Pipeline, ReaderImpls}
use capnproto_test.Struct

-- `read_results::Owned`, with the constants of `read_results::_private`
abbrev pub read_results : Owned
read_results = record {
  struct_size = record { data_words = 1; pointers = 0 };
  type_id = 0xe6be_6723_122a_e822;
}

module _ ⦃R : Layout⦄ where
  -- The impls of `read_results::Reader`, `read_results::Builder` and `read_results::Pipeline` that name no field.
  abbrev pub reader_impls : ReaderImpls read_results
  reader_impls = Struct.reader_impls read_results

  abbrev pub builder_impls : BuilderImpls read_results
  builder_impls = Struct.builder_impls read_results

  abbrev pub pipeline_new : R.TypelessPipeline → Pipeline read_results
  pipeline_new = Struct.pipeline_new read_results
