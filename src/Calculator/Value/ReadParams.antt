-- ===== src/Calculator/Value/ReadParams.antt =====
-- `calculator::value::read_params` of rust/src/schema/calculator_capnp.rs, lines 553 to 668.
use capnproto_test.Layout.{Layout, Owned}
use capnproto_test.Struct.{BuilderImpls, Pipeline, ReaderImpls}
use capnproto_test.Struct

-- `read_params::Owned`, with the constants of `read_params::_private`
abbrev pub read_params : Owned
read_params = record {
  struct_size = record { data_words = 0; pointers = 0 };
  type_id = 0xd353_2574_d58d_b558;
}

module _ ⦃R : Layout⦄ where
  -- The impls of `read_params::Reader`, `read_params::Builder` and `read_params::Pipeline` that name no field.
  abbrev pub reader_impls : ReaderImpls read_params
  reader_impls = Struct.reader_impls read_params

  abbrev pub builder_impls : BuilderImpls read_params
  builder_impls = Struct.builder_impls read_params

  abbrev pub pipeline_new : R.TypelessPipeline → Pipeline read_params
  pipeline_new = Struct.pipeline_new read_params
