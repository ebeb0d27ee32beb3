-- ===== src/Tests/Builders.antt =====
-- Structs in the memory, and what they hold.
use capnproto_test.Base.{ℕ, arith}
use capnproto_test.Layout.{Owned}
use capnproto_test.Layout.Memory.{Memory, empty, struct_at}
use capnproto_test.Layout.Memory.Instance.{memory_layout, memory_content}
use capnproto_test.Struct.{Reader, Builder}
use capnproto_test.Struct.Fields.{HasRoom}

-- The struct with id 1.
abbrev pub first : (o : Owned) → Builder o
first o = record { builder = record { id = 1; size = o.struct_size } }

pub first-HasRoom : (o : Owned) → HasRoom memory_content (first o)
first-HasRoom o = record { data_room = omega arith; pointer_room = omega arith }

-- A memory in which each slot of each struct is `n`.
abbrev pub filled : ℕ → Memory
filled n = record empty { slot = λ _ _. n }

-- A reader of the struct with id 1 in that memory.
abbrev pub reader_of : (o : Owned) → ℕ → Reader o
reader_of o n = record { reader = record { memory = filled n; box = (first o).builder } }

-- The same, where each pointer holds an empty struct.
abbrev pub pointing_reader : (o : Owned) → ℕ → Reader o
pointing_reader o n = record {
  reader = record {
    memory = record (filled n) {
      cell = λ _ _. struct_at (record { id = 2; size = record { data_words = 0; pointers = 0 } });
    };
    box = (first o).builder;
  };
}
