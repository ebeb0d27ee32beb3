-- ===== src/Calculator/Function/Interface.antt =====
-- The interface `calculator::function` of rust/src/schema/calculator_capnp.rs, and the impls of its `Client`.
use capnproto_test.Layout.{Layout}
use capnproto_test.Interface.{Interface, ClientImpls}
use capnproto_test.Interface

-- The constant of `function::_private`
abbrev pub function : Interface
function = record { type_id = 0xede8_3a3d_9684_0394 }

module _ ⦃R : Layout⦄ where
  abbrev pub client_impls : ClientImpls function
  client_impls = Interface.client_impls function
