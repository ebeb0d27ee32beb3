-- ===== src/Calculator/Operators/Numbers.antt =====
-- `Operator` against its numbers on the wire.
use capnproto_test.Base.{ℕ, ◌^◌, ◌≤◌, ◌<◌, ◌≡◌, refl, ◌↔◌, known, not_in_schema, arith}
use capnproto_test.Calculator.Operators.{Operator, add, from_u16, to_u16}

pub to_u16-lt : (op : Operator) → to_u16 op < 2 ^ 16
unfolding to_u16
to_u16-lt add = omega arith
to_u16-lt _ = omega arith

pub from_u16-to_u16 : (op : Operator) → from_u16 (to_u16 op) ≡ known op
unfolding from_u16 to_u16
from_u16-to_u16 add = refl
from_u16-to_u16 _ = refl

-- `from_u16` gives an operator exactly for the number that `to_u16` gives of it, and refuses a number,
-- with the number in the error, exactly when it is 4 or more.
pub operator_from_u16_iff :
    (n : ℕ) (op : Operator)
    → ((from_u16 n ≡ known op) ↔ (to_u16 op ≡ n)) × ((from_u16 n ≡ not_in_schema n) ↔ (4 ≤ n))
unfolding from_u16 to_u16
operator_from_u16_iff n add = ground arith
operator_from_u16_iff n _ = ground arith
