-- ===== src/Calculator/Operators.antt =====
-- `calculator::Operator` of rust/src/schema/calculator_capnp.rs.
pub mod Numbers
use capnproto_test.Base.{ℕ, ◌==◌, if◌then◌else◌, InSchema, known, not_in_schema}

pub data Operator : Type 0 where
  add subtract multiply divide : Operator

-- `FromU16::from_u16`
unfoldable pub from_u16 : ℕ → InSchema Operator
from_u16 n =
    if n == 0
    then known add
    else if n == 1
    then known subtract
    else if n == 2
    then known multiply
    else if n == 3
    then known divide
    else not_in_schema n

-- `ToU16::to_u16`, and `as u16`
unfoldable pub to_u16 : Operator → ℕ
to_u16 add = 0
to_u16 subtract = 1
to_u16 multiply = 2
to_u16 divide = 3

-- `HasTypeId`
abbrev pub operator_type_id : ℕ
operator_type_id = 0x8793_4078_61e6_dfe6
