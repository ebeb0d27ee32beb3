-- ===== src/Layout/Memory/Separated.antt =====
-- The structs of the memory have their own slots and cells.
use capnproto_test.Base.{◌≤◌, ◌≢◌, refl, arith}
use capnproto_test.Layout.Separation.{Structs, Survives, IsSeparated}
use capnproto_test.Layout.Memory.{Box, Cell, Memory, Spot, set_cell}
use capnproto_test.Layout.Memory.Words.{read-eq}
use capnproto_test.Layout.Memory.Instance.{memory_layout, memory_content}

abbrev pub memory_structs : Structs memory_layout
memory_structs = record { Live = λ b m. b.id ≤ m.next; Distinct = λ b c. b.id ≢ c.id }

set_cell-Survives :
    (b : Box) (p : Spot) (x : Cell) (m : Memory)
    → b.id ≤ m.next
    → p.id ≢ b.id
    → Survives memory_layout memory_content memory_structs b m (set_cell p x m)
set_cell-Survives b p x m live apart = record {
  live = live;
  same_data = λ e i fits. refl;
  same_pointers = λ i. ground arith;
}

pub memory_layout-IsSeparated : IsSeparated memory_layout memory_content memory_structs
memory_layout-IsSeparated = record {
  set-Survives = λ b c e i v m live apart fits. record {
    live = live;
    same_data = λ e' j small. read-eq _ _ _ _ (λ x lo hi. ground arith);
    same_pointers = λ j. refl;
  };
  set_data-Survives = λ b c i l m live apart small short. set_cell-Survives b _ _ m live apart;
  init_data-Survives = λ b c i n m live apart small short. set_cell-Survives b _ _ m live apart;
  init_struct-Survives = λ b c i z m live apart small. record {
    live = omega arith;
    same_data = λ e' j fits. read-eq _ _ _ _ (λ x lo hi. ground arith);
    same_pointers = λ j. ground arith;
  };
  init_struct-Live = λ b i z m live small. omega arith;
  init_struct-Distinct = λ b i z m live small e. omega arith;
  set-Live = λ b e i v m live fits. live;
}
