-- ===== src/Calculator/Value/Interface.antt =====
-- The interface `calculator::value` of rust/src/schema/calculator_capnp.rs, and the impls of its `Client`.
use capnproto_test.Layout.{Layout}
use capnproto_test.Interface.{Interface, ClientImpls}
use capnproto_test.Interface

-- The constant of `value::_private`
abbrev pub value : Interface
value = record { type_id = 0xc3e6_9d34_d3ee_48d2 }

module _ ⦃R : Layout⦄ where
  abbrev pub client_impls : ClientImpls value
  client_impls = Interface.client_impls value
