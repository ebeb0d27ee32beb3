-- ===== src/Layout/Memory/Lawful.antt =====
-- The memory meets the assumptions on the crate.
use capnproto_test.Base.{ℕ, ◌+◌, ◌*◌, ◌^◌, ◌≤◌, ◌<◌, ◌≡◌, refl, ◌≢◌, panic, arith, ◌⊎◌, ◌∙◌}
use capnproto_test.Layout.{StructSize}
use capnproto_test.Layout.Elements.{Element, u16, u32, i32, f64, bits, Apart}
use capnproto_test.Layout.Laws.{
  structure, capability, Keeps, IsLawful, is_null_target, target_bytes, shown, shown_mut,
}
use capnproto_test.Layout.Memory.{
  Box, Cell, null, struct_at, capability_of, bytes, Memory, View, Spot, slots, get_field, set_field,
  set_cell, view_field, alloc, is_null_cell, open_struct, open_box, open_bytes,
}
use capnproto_test.Layout.Memory.Words.{
  capacity, read, write, read-lt, read-eq, read-write, read-write_apart, read-zeros,
}
use capnproto_test.Layout.Memory.Instance.{memory_layout, memory_content, target_of}

capacity-slots : (e : Element) → capacity (slots e) ≡ 2 ^ bits e
capacity-slots u16 = refl
capacity-slots u32 = refl
capacity-slots i32 = refl
capacity-slots f64 = refl

get_field-lt : (m : Memory) (b : Box) (e : Element) (i : ℕ) → get_field m b e i < 2 ^ bits e
get_field-lt m b e i =
    omega (arith, read-lt (slots e) (i * slots e) (m.slot b.id), capacity-slots e)

view_field-lt : (r : View) (e : Element) (i : ℕ) → view_field r e i < 2 ^ bits e
view_field-lt r e i = ground (
  arith,
  get_field-lt r.memory r.box e i,
  read-lt (slots e) (i * slots e) (λ _. 0),
  capacity-slots e,
)

-- The slots of the struct that is written, after the write.
get-set_field :
    (b : Box) (e e' : Element) (i j v : ℕ) (m : Memory)
    → get_field (set_field b e i v m) b e' j
      ≡ read (slots e') (j * slots e') (write (slots e) (i * slots e) v (m.slot b.id))
get-set_field b e e' i j v m = read-eq (slots e') (j * slots e') _ _ (λ x lo hi. ground arith)

bits-slots : (e : Element) → bits e ≡ slots e * 16
bits-slots u16 = refl
bits-slots u32 = refl
bits-slots i32 = refl
bits-slots f64 = refl

Apart-slots :
    (e e' : Element) (i j : ℕ)
    → Apart e i e' j
    → (j * slots e' + slots e' ≤ i * slots e) ⊎ (i * slots e + slots e ≤ j * slots e')
Apart-slots e e' i j h = let scaled = rw (bits-slots e, bits-slots e') at h in ground arith

get-set-Apart :
    (b : Box) (e e' : Element) (i j v : ℕ) (m : Memory)
    → Apart e i e' j
    → get_field (set_field b e i v m) b e' j ≡ get_field m b e' j
get-set-Apart b e e' i j v m h =
    get-set_field b e e' i j v m
    ∙ read-write_apart (slots e') (j * slots e') (slots e) (i * slots e) v (m.slot b.id)
        (Apart-slots e e' i j h)

get-set_self :
    (b : Box) (e : Element) (i v : ℕ) (m : Memory)
    → v < 2 ^ bits e
    → get_field (set_field b e i v m) b e i ≡ v
get-set_self b e i v m h =
    get-set_field b e e i i v m
    ∙ read-write (slots e) (i * slots e) v (m.slot b.id) (omega (arith, capacity-slots e))

-- A write to one cell of a struct keeps its slots and its other cells.
set_cell-Keeps :
    (b : Box) (i : ℕ) (c : Cell) (m : Memory)
    → Keeps memory_layout memory_content b i m (set_cell (record { id = b.id; index = i }) c m)
set_cell-Keeps b i c m = record {
  same_data = λ e j fits. refl;
  same_pointers = λ j small ne. ground arith;
}

alloc-Keeps :
    (b : Box) (i : ℕ) (z : StructSize) (m : Memory)
    → Keeps memory_layout memory_content b i m (alloc (record { id = b.id; index = i }) z m).1
alloc-Keeps b i z m = record {
  same_data = λ e j fits. read-eq (slots e) (j * slots e) _ _ (λ x lo hi. ground arith);
  same_pointers = λ j small ne. ground arith;
}

alloc-target :
    (p : Spot) (z : StructSize) (m : Memory)
    → target_of ((alloc p z m).1.cell p.id p.index) ≡ structure (alloc p z m).0
alloc-target p z m = ground arith

is_null-target_of : (c : Cell) → is_null_cell c ≡ is_null_target (target_of c)
is_null-target_of null = refl
is_null-target_of _ = refl

struct_of_target : (c : Cell) (b : Box) → target_of c ≡ structure b → c ≡ struct_at b
struct_of_target (struct_at b) b' e = cc
struct_of_target _ b e = cc

capability_of_target : (c : Cell) (h : ℕ) → target_of c ≡ capability h → c ≡ capability_of h
capability_of_target (capability_of h) h' e = cc
capability_of_target _ h e = cc

shown-open_bytes :
    (c : Cell) (m : Memory) → shown memory_content (open_bytes c m) ≡ target_bytes (target_of c)
shown-open_bytes null m = refl
shown-open_bytes (bytes l) m = refl
shown-open_bytes _ m = refl

shown_mut-open_bytes :
    (p : Spot) (m : Memory) (c : Cell)
    → m.cell p.id p.index ≡ c
    → shown_mut memory_content (memory_layout.get_data_mut p m)
      ≡ target_bytes (target_of (m.cell p.id p.index))
shown_mut-open_bytes p m null e = ground arith
shown_mut-open_bytes p m (bytes l) e = ground arith
shown_mut-open_bytes p m _ e = ground arith

open_struct-ne_panic : (m : Memory) (c : Cell) (s t : Memory) → open_struct m c s ≢ panic t
open_struct-ne_panic m null s t e = cc
open_struct-ne_panic m (struct_at b) s t e = cc
open_struct-ne_panic m _ s t e = cc

open_box-ne_panic :
    (p : Spot) (z : StructSize) (c : Cell) (s t : Memory) → open_box p z c s ≢ panic t
open_box-ne_panic p z null s t = ground arith
open_box-ne_panic p z _ s t = ground arith

pub memory_layout-IsLawful : IsLawful memory_layout memory_content
memory_layout-IsLawful = record {
  get_data_field-lt = view_field-lt;
  get_data_field_mut-lt = λ b e i m. get_field-lt m b e i;
  get-set_self = λ b e i v m fits small. get-set_self b e i v m small;
  get-set-Apart = λ b e e' i j v m fits fits' apart. get-set-Apart b e e' i j v m apart;
  target-set = λ b e i v m p fits. refl;
  client_new-hook = λ c. refl;
  get_struct-ne_panic = λ p s t. open_struct-ne_panic p.memory p.cell s t;
  get_struct_mut-ne_panic = λ p z s t. open_box-ne_panic p z (s.cell p.id p.index) s t;
  is_null-target = λ p m. is_null-target_of (m.cell p.id p.index);
  get_capability-target = λ p m {h} e. rw (capability_of_target (m.cell p.id p.index) h e);
  get_struct-target =
      λ p m {b} z e d q. rw (struct_of_target (m.cell p.id p.index) b e) (ground arith);
  get_data-target = λ p m. shown_mut-open_bytes p m (m.cell p.id p.index) refl;
  clear-target = λ p m. ground arith;
  clear-Keeps = λ b i m small. set_cell-Keeps b i null m;
  set_capability-target = λ p h m. ground arith;
  set_capability-Keeps = λ b i h m small. set_cell-Keeps b i (capability_of h) m;
  set_data-target = λ p l m small. ground arith;
  set_data-Keeps = λ b i l m small short. set_cell-Keeps b i (bytes l) m;
  init_data-target = λ p n m small. ground arith;
  init_data-Keeps = λ b i n m small short. set_cell-Keeps b i _ m;
  init_struct-target = alloc-target;
  init_struct-size = λ p z m. refl;
  init_struct-data = λ p z m e i fits.
      read-eq (slots e) (i * slots e) _ _ (λ x lo hi. ground arith)
      ∙ read-zeros (slots e) (i * slots e);
  init_struct-null = λ p z m i small. ground arith;
  init_struct-Keeps = λ b i z m small. alloc-Keeps b i z m;
  set_struct-Keeps = λ b i r c m small. set_cell-Keeps b i (struct_at r.box) m;
  get_data_field-into_reader = λ b e i m fits. ground arith;
  is_null-into_reader = λ b i m small. ground arith;
  get_struct-into_reader =
      λ b i m {c} small e. ground (arith, struct_of_target (m.cell b.id i) c e);
  get_data-into_reader = λ b i m small. ground (arith, shown-open_bytes (m.cell b.id i) m);
  get_capability-into_reader =
      λ b i m {h} small e. ground (arith, capability_of_target (m.cell b.id i) h e);
}
