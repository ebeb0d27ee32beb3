-- ===== src/Calculator/Interface.antt =====
-- The interface `calculator` of rust/src/schema/calculator_capnp.rs, and the impls of its `Client`.
use capnproto_test.Layout.{Layout}
use capnproto_test.Interface.{Interface, ClientImpls}
use capnproto_test.Interface

-- The constant of `calculator::_private`
abbrev pub calculator : Interface
calculator = record { type_id = 0x9798_3392_df35_cc36 }

module _ ⦃R : Layout⦄ where
  abbrev pub client_impls : ClientImpls calculator
  client_impls = Interface.client_impls calculator
