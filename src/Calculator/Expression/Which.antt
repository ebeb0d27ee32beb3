-- ===== src/Calculator/Expression/Which.antt =====
-- `expression::Which` of rust/src/schema/calculator_capnp.rs.
use capnproto_test.Base.{ℕ, Result}
use capnproto_test.Layout.{Layout}
use capnproto_test.Struct.{Reader, Builder}
use capnproto_test.Interface.{Client}
use capnproto_test.Calculator.Value.Interface.{value}
use capnproto_test.Calculator.Expression.Call.{call}

module _ ⦃R : Layout⦄ where
  -- The case of the group `call` is named apart from the struct.
  pub data Which (A : Type 0) : Type 0 where
    literal : ℕ → Which A
    previous_result : Result R.Error (Client value) → Which A
    parameter : ℕ → Which A
    call_case : A → Which A

  abbrev pub WhichReader : Type 0
  WhichReader = Which (Reader call)

  abbrev pub WhichBuilder : Type 0
  WhichBuilder = Which (Builder call)
