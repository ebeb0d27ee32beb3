-- ===== src/Layout/Memory.antt =====
-- A small memory that can stand for the crate: it shows that the assumptions of `Layout.Laws` can be met, and runs
-- the generated accessors on concrete data. A struct is an id with its slots and pointers, and a
-- reader keeps the memory that it was made from. `set_struct` shares what the struct points to.
pub mod Words
pub mod Instance
pub mod Lawful
pub mod Separated
use Prim.Native.String.{String}
use capnproto_test.Base.{
  ℕ, zero, suc, ◌+◌, ◌*◌, ◌≡◌, Bool, true, false, ◌&&◌, List, [], ◌∷◌, Outcome, ok, err, Command,
  ltb, ◌==◌, if◌then◌else◌,
}
use capnproto_test.Layout.{Layout, StructSize, Owned}
use capnproto_test.Layout.Elements.{Element, u16, u32, i32, f64, bits}
use Words.{Slots, read, write}

pub record Box : Type 0 where
  pub id : ℕ
  pub size : StructSize

pub data Cell : Type 0 where
  null : Cell
  struct_at : Box → Cell
  capability_of : ℕ → Cell
  bytes : List ℕ → Cell
  structs : List Box → Cell
  numbers : List ℕ → Cell

pub record Memory : Type 0 where
  pub next : ℕ
  pub slot : ℕ → Slots
  pub cell : ℕ → ℕ → Cell

pub data Failure : Type 0 where
  wrong_kind : Failure
  unimplemented : String → Failure

pub record View : Type 0 where
  pub memory : Memory
  pub box : Box

pub record Spot : Type 0 where
  pub id : ℕ
  pub index : ℕ

abbrev pub empty : Memory
empty = record { next = 1; slot = λ _ _. 0; cell = λ _ _. null }

abbrev pub slots : Element → ℕ
slots u16 = 1
slots u32 = 2
slots i32 = 2
slots f64 = 4

abbrev pub get_field : Memory → Box → Element → ℕ → ℕ
get_field m b e i = read (slots e) (i * slots e) (m.slot b.id)

abbrev pub set_field : Box → Element → ℕ → ℕ → Memory → Memory
set_field b e i v m = record m {
  slot =
      λ id j. if id == b.id then write (slots e) (i * slots e) v (m.slot b.id) j else m.slot id j;
}

abbrev pub set_cell : Spot → Cell → Memory → Memory
set_cell p c m = record m {
  cell = λ id j. if (id == p.id) && (j == p.index) then c else m.cell id j;
}

abbrev pub view_field : View → Element → ℕ → ℕ
view_field r e i =
    if ltb (64 * r.box.size.data_words) ((i + 1) * bits e) then 0 else get_field r.memory r.box e i

abbrev pub cell_of_view : View → ℕ → Cell
cell_of_view r i = if ltb i r.box.size.pointers then r.memory.cell r.box.id i else null

-- The id of a new struct is that of no struct yet, nor that of the pointer's own.
abbrev pub alloc : Spot → StructSize → Memory → Box × Memory
alloc p z m =
    let fresh = suc (m.next + p.id) in
    let b : Box = record { id = fresh; size = z } in
    let m' : Memory = record {
      next = suc fresh;
      slot = λ id j. if id == fresh then 0 else m.slot id j;
      cell = λ id j. if id == fresh then null else m.cell id j;
    } in
    (b, set_cell p (struct_at b) m')

abbrev no_box : StructSize
no_box = record { data_words = 0; pointers = 0 }

abbrev pub is_null_cell : Cell → Bool
is_null_cell null = true
is_null_cell _ = false

abbrev open_struct : Memory → Cell → Command Memory Failure View
open_struct m null = ok (record { memory = m; box = record { id = 0; size = no_box } })
open_struct m (struct_at b) = ok (record { memory = m; box = b })
open_struct m _ = err wrong_kind

abbrev pub open_bytes : Cell → Command Memory Failure (List ℕ)
open_bytes null = ok []
open_bytes (bytes l) = ok l
open_bytes _ = err wrong_kind

abbrev open_capability : Cell → Command Memory Failure ℕ
open_capability (capability_of h) = ok h
open_capability _ = err wrong_kind

abbrev pub bytes_of : Cell → List ℕ
bytes_of (bytes l) = l
bytes_of _ = []

abbrev open_structs : Cell → Command Memory Failure (List Box)
open_structs null = ok []
open_structs (structs l) = ok l
open_structs _ = err wrong_kind

abbrev open_numbers : Cell → Command Memory Failure (List ℕ)
open_numbers null = ok []
open_numbers (numbers l) = ok l
open_numbers _ = err wrong_kind

-- A builder of a struct with room is given as it is; another one is made anew.
abbrev open_box : Spot → StructSize → Cell → Command Memory Failure Box
open_box p z (struct_at b) m =
    if ltb b.size.data_words z.data_words
    then (let (b', m') = alloc p z m in ok b' m')
    else if ltb b.size.pointers z.pointers
    then (let (b', m') = alloc p z m in ok b' m')
    else ok b m
open_box p z null m = let (b, m') = alloc p z m in ok b m'
open_box p z _ m = err wrong_kind m

-- Structs with the ids from `n` on.
abbrev boxes : ℕ → ℕ → StructSize → List Box
boxes zero n z = []
boxes (suc k) n z = record { id = n; size = z } ∷ boxes k (suc n) z

abbrev views : Memory → List Box → List View
views m [] = []
views m (b ∷ bs) = record { memory = m; box = b } ∷ views m bs

abbrev boxes_of : List View → List Box
boxes_of [] = []
boxes_of (r ∷ rs) = r.box ∷ boxes_of rs
