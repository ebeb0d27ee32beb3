-- ===== src/Calculator/Value/ReadResults/Reader.antt =====
-- The accessors of `calculator::value::read_results::Reader` in rust/src/schema/calculator_capnp.rs.
use capnproto_test.Base.{ℕ}
use capnproto_test.Layout.{Layout}
use capnproto_test.Layout.Elements.{f64}
use capnproto_test.Struct.{Reader}
use capnproto_test.Calculator.Value.ReadResults.{read_results}

module _ ⦃R : Layout⦄ where
  unfoldable pub get_value : Reader read_results → ℕ
  get_value r = R.get_data_field r.reader f64 0
