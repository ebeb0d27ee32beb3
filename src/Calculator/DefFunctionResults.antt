-- ===== src/Calculator/DefFunctionResults.antt =====
-- `calculator::def_function_results` of rust/src/schema/calculator_capnp.rs, lines 1615 to 1745.
pub mod Reader
pub mod Builder
use capnproto_test.Layout.{Layout, Owned}
use capnproto_test.Struct.{BuilderImpls, Pipeline, ReaderImpls}
use capnproto_test.Interface.{Client, client_impls}
use capnproto_test.Struct
use capnproto_test.Calculator.Function.Interface.{function}

-- `def_function_results::Owned`, with the constants of `def_function_results::_private`
abbrev pub def_function_results : Owned
def_function_results = record {
  struct_size = record { data_words = 0; pointers = 1 };
  type_id = 0x8d24_f465_047c_d6c8;
}

module _ ⦃R : Layout⦄ where
  -- The impls of `def_function_results::Reader`, `def_function_results::Builder` and `def_function_results::Pipeline` that name no field.
  abbrev pub reader_impls : ReaderImpls def_function_results
  reader_impls = Struct.reader_impls def_function_results

  abbrev pub builder_impls : BuilderImpls def_function_results
  builder_impls = Struct.builder_impls def_function_results

  abbrev pub pipeline_new : R.TypelessPipeline → Pipeline def_function_results
  pipeline_new = Struct.pipeline_new def_function_results

  pub pipeline_get_func : Pipeline def_function_results → Client function
  pipeline_get_func p =
      (client_impls function).new (R.as_cap (R.pipeline_pointer_field p.typeless 0))
