-- ===== src/Calculator/Expression/Call.antt =====
-- `calculator::expression::call` of rust/src/schema/calculator_capnp.rs, lines 309 to 461.
pub mod Reader
pub mod Builder
use capnproto_test.Layout.{Layout, Owned}
use capnproto_test.Struct.{BuilderImpls, Pipeline, ReaderImpls}
use capnproto_test.Interface.{Client, client_impls}
use capnproto_test.Struct
use capnproto_test.Calculator.Function.Interface.{function}

-- `call::Owned`, with the constants of `call::_private`
abbrev pub call : Owned
call = record {
  struct_size = record { data_words = 2; pointers = 2 };
  type_id = 0xd995_22a3_d387_8d66;
}

module _ ⦃R : Layout⦄ where
  -- The impls of `call::Reader`, `call::Builder` and `call::Pipeline` that name no field.
  abbrev pub reader_impls : ReaderImpls call
  reader_impls = Struct.reader_impls call

  abbrev pub builder_impls : BuilderImpls call
  builder_impls = Struct.builder_impls call

  abbrev pub pipeline_new : R.TypelessPipeline → Pipeline call
  pipeline_new = Struct.pipeline_new call

  pub pipeline_get_function : Pipeline call → Client function
  pipeline_get_function p =
      (client_impls function).new (R.as_cap (R.pipeline_pointer_field p.typeless 0))
