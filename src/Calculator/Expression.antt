-- ===== src/Calculator/Expression.antt =====
-- `calculator::expression` of rust/src/schema/calculator_capnp.rs, lines 109 to 462.
pub mod Reader
pub mod Builder
pub mod Call
pub mod Which
pub mod Union
use capnproto_test.Layout.{Layout, Owned}
use capnproto_test.Struct.{BuilderImpls, Pipeline, ReaderImpls}
use capnproto_test.Struct

-- `expression::Owned`, with the constants of `expression::_private`
abbrev pub expression : Owned
expression = record {
  struct_size = record { data_words = 2; pointers = 2 };
  type_id = 0xd438_d7ca_f554_8d15;
}

module _ ⦃R : Layout⦄ where
  -- The impls of `expression::Reader`, `expression::Builder` and `expression::Pipeline` that name no field.
  abbrev pub reader_impls : ReaderImpls expression
  reader_impls = Struct.reader_impls expression

  abbrev pub builder_impls : BuilderImpls expression
  builder_impls = Struct.builder_impls expression

  abbrev pub pipeline_new : R.TypelessPipeline → Pipeline expression
  pipeline_new = Struct.pipeline_new expression
