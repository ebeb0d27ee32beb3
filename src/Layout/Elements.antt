-- ===== src/Layout/Elements.antt =====
-- The primitive types of the generated accessors. A value is its bit pattern: an `i32` is held in
-- two's complement, an `f64` as its IEEE 754 image.
use capnproto_test.Base.{ℕ, ◌*◌, ◌+◌, ◌≤◌, ◌⊎◌}

pub data Element : Type 0 where
  u16 u32 i32 f64 : Element

abbrev pub bits : Element → ℕ
bits u16 = 16
bits u32 = 32
bits i32 = 32
bits f64 = 64

-- Two fields have no bit in common. The offset of a field counts elements of its own size.
abbrev pub Apart : Element → ℕ → Element → ℕ → Type 0
Apart e i e' j = ((i + 1) * bits e ≤ j * bits e') ⊎ ((j + 1) * bits e' ≤ i * bits e)
