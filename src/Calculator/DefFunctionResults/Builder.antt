-- ===== src/Calculator/DefFunctionResults/Builder.antt =====
-- The accessors of `calculator::def_function_results::Builder` in rust/src/schema/calculator_capnp.rs.
use capnproto_test.Base.{Command}
use capnproto_test.Layout.{Layout}
use capnproto_test.Struct.{Builder}
use capnproto_test.Interface.{Client, read_client_mut}
use capnproto_test.Calculator.DefFunctionResults.{def_function_results}
use capnproto_test.Calculator.Function.Interface.{function}

module _ ⦃R : Layout⦄ where
  unfoldable pub get_func : Builder def_function_results → Command R.State R.Error (Client function)
  get_func b = read_client_mut function (R.get_pointer_field_mut b.builder 0)

  unfoldable pub set_func : Builder def_function_results → Client function → R.State → R.State
  set_func b value s =
      R.set_capability (R.get_pointer_field_mut b.builder 0) (R.hook value.client) s
