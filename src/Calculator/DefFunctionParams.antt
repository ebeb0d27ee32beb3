-- ===== src/Calculator/DefFunctionParams.antt =====
-- `calculator::def_function_params` of rust/src/schema/calculator_capnp.rs, lines 1461 to 1613.
pub mod Reader
pub mod Builder
pub mod Values
pub mod Writes
use capnproto_test.Layout.{Layout, Owned}
use capnproto_test.Struct.{BuilderImpls, Pipeline, ReaderImpls}
use capnproto_test.Calculator.Expression
use capnproto_test.Struct
use capnproto_test.Calculator.Expression.{expression}

-- `def_function_params::Owned`, with the constants of `def_function_params::_private`
abbrev pub def_function_params : Owned
def_function_params = record {
  struct_size = record { data_words = 1; pointers = 1 };
  type_id = 0xf287_bcba_4556_dc89;
}

module _ ⦃R : Layout⦄ where
  -- The impls of `def_function_params::Reader`, `def_function_params::Builder` and `def_function_params::Pipeline` that name no field.
  abbrev pub reader_impls : ReaderImpls def_function_params
  reader_impls = Struct.reader_impls def_function_params

  abbrev pub builder_impls : BuilderImpls def_function_params
  builder_impls = Struct.builder_impls def_function_params

  abbrev pub pipeline_new : R.TypelessPipeline → Pipeline def_function_params
  pipeline_new = Struct.pipeline_new def_function_params

  pub pipeline_get_body : Pipeline def_function_params → Pipeline expression
  pipeline_get_body p = Expression.pipeline_new (R.pipeline_pointer_field p.typeless 0)
