-- ===== src/Layout/Memory/Instance.antt =====
-- The memory as a `Layout`.
use capnproto_test.Base.{zeros, ℕ, ◌+◌, List, ok, ◌>>=◌}
use capnproto_test.Layout.{Layout}
use capnproto_test.Layout.Laws.{Content, Target, structure, capability, blob, other}
use capnproto_test.Layout.Memory.{
  Box, Cell, null, struct_at, capability_of, bytes, structs, numbers, Memory, Failure,
  unimplemented, View, Spot, get_field, set_field, set_cell, view_field, cell_of_view, alloc,
  is_null_cell, open_struct, open_bytes, open_capability, open_structs, open_numbers, open_box,
  boxes, views, bytes_of, boxes_of,
}

abbrev spot_cell : Spot → Memory → Cell
spot_cell p m = m.cell p.id p.index

-- A view of a pointer: the cell behind it, with the memory that holds what it points to.
pub record Seen : Type 0 where
  pub memory : Memory
  pub cell : Cell

instance abbrev pub memory_layout : Layout
memory_layout = record {
  State = Memory;
  Error = Failure;
  unimplemented = unimplemented;
  StructReader = View;
  PointerReader = Seen;
  StructBuilder = Box;
  PointerBuilder = Spot;
  DataReader = List ℕ;
  DataBuilder = Spot;
  StructListReader = λ o. List View;
  StructListBuilder = λ o. List Box;
  PrimitiveListReader = λ e. List ℕ;
  PrimitiveListBuilder = λ e. List ℕ;
  CapTable = Unit {0};
  MessageSize = ℕ;
  ClientHook = ℕ;
  CapClient = ℕ;
  client_new = λ h. h;
  hook = λ c. c;
  add_ref = λ h. h;
  TypelessPipeline = ℕ;
  pipeline_pointer_field = λ p i. p + i;
  as_cap = λ p. p;
  get_data_field = view_field;
  get_pointer_field = λ r i. record { memory = r.memory; cell = cell_of_view r i };
  total_size = λ r m. ok r.box.size.data_words m;
  imbue = λ r _. r;
  is_null = λ p. is_null_cell p.cell;
  get_struct = λ p. open_struct p.memory p.cell;
  get_data = λ p. open_bytes p.cell;
  get_capability = λ p. open_capability p.cell;
  get_data_field_mut = λ b e i m. get_field m b e i;
  set_data_field = set_field;
  get_pointer_field_mut = λ b i. record { id = b.id; index = i };
  into_reader = λ b m. record { memory = m; box = b };
  imbue_mut = λ b _. b;
  is_null_mut = λ p m. is_null_cell (spot_cell p m);
  get_struct_mut = λ p z m. open_box p z (spot_cell p m) m;
  get_data_mut = λ p. (λ m. (do l ← open_bytes (spot_cell p m); ok p) m);
  get_capability_mut = λ p m. open_capability (spot_cell p m) m;
  init_struct = alloc;
  init_data = λ p n m. (p, set_cell p (bytes (zeros n)) m);
  set_data = λ p l m. set_cell p (bytes l) m;
  set_capability = λ p h m. set_cell p (capability_of h) m;
  set_struct = λ p r _ m. ok tt (set_cell p (struct_at r.box) m);
  clear = λ p m. set_cell p null m;
  get_struct_list = λ o p. (do bs ← open_structs p.cell; ok (views p.memory bs));
  get_struct_list_mut = λ o p m. open_structs (spot_cell p m) m;
  init_struct_list = λ o p n m.
      let bs = boxes n (m.next + p.id + 1) o.struct_size in
      (bs, set_cell p (structs bs) (record m { next = m.next + p.id + 1 + n }));
  set_struct_list = λ o p l _ m. ok tt (set_cell p (structs (boxes_of l)) m);
  struct_list_iter = λ o l. l;
  get_primitive_list = λ e p. open_numbers p.cell;
  get_primitive_list_mut = λ e p m. open_numbers (spot_cell p m) m;
  init_primitive_list = λ e p n m. (zeros n, set_cell p (numbers (zeros n)) m);
  set_primitive_list = λ e p l _ m. ok tt (set_cell p (numbers l) m);
}

abbrev pub target_of : Cell → Target Box ℕ
target_of null = Target.null
target_of (struct_at b) = structure b
target_of (capability_of h) = capability h
target_of (bytes l) = blob l
target_of _ = other

abbrev pub memory_content : Content memory_layout
memory_content = record {
  size = λ b. b.size;
  target = λ p m. target_of (spot_cell p m);
  contents = λ l. l;
  contents_mut = λ p m. bytes_of (spot_cell p m);
}
