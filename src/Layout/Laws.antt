-- ===== src/Layout/Laws.antt =====
-- What the documentation of the crate promises of the functions of `Layout`. Nothing is promised of an access
-- that lies outside the struct: builders do not check bounds.
use capnproto_test.Base.{
  List, [], Option, none, some, length, zeros, Outcome, ℕ, ◌+◌, ◌*◌, ◌^◌, ◌≤◌, ◌<◌, ◌≡◌, ◌≢◌, Bool,
  true, false, ok, panic, final,
}
use capnproto_test.Layout.{Layout, StructSize}
use capnproto_test.Layout.Elements.{Element, bits, Apart}

-- What a pointer of a message under construction holds.
pub data Target (B H : Type 0) : Type 0 where
  null : Target B H
  structure : B → Target B H
  capability : H → Target B H
  -- `Data`, a list of bytes
  blob : List ℕ → Target B H
  other : Target B H

module _ {B H : Type 0} where
  abbrev pub is_null_target : Target B H → Bool
  is_null_target null = true
  is_null_target (structure b) = false
  is_null_target (capability h) = false
  is_null_target (blob l) = false
  is_null_target other = false

  -- The bytes that the pointer shows as `Data`; a null pointer shows the default, which is empty.
  abbrev pub target_bytes : Target B H → Option (List ℕ)
  target_bytes null = some []
  target_bytes (blob l) = some l
  target_bytes _ = none

-- The field lies in the data section.
abbrev pub Fits : StructSize → Element → ℕ → Type 0
Fits z e i = (i + 1) * bits e ≤ 64 * z.data_words

pub record Content (R : Layout) : Type 0 where
  -- The size with which a builder was made, and what its pointers hold.
  pub size : R.StructBuilder → StructSize
  pub target : R.PointerBuilder → R.State → Target R.StructBuilder R.ClientHook
  -- The bytes of the slices `&[u8]` and `&mut [u8]`.
  pub contents : R.DataReader → List ℕ
  pub contents_mut : R.DataBuilder → R.State → List ℕ

-- A list has fewer elements than this; beyond, the crate panics.
abbrev pub list_limit : ℕ
list_limit = 2 ^ 29

module _ {R : Layout} (C : Content R) where
  -- The bytes that a getter of `Data` returned, if it returned any.
  abbrev pub shown : Outcome R.State R.Error R.DataReader → Option (List ℕ)
  shown (ok d s) = some (C.contents d)
  shown _ = none

  abbrev pub shown_mut : Outcome R.State R.Error R.DataBuilder → Option (List ℕ)
  shown_mut (ok d s) = some (C.contents_mut d s)
  shown_mut _ = none

module _ (R : Layout) (C : Content R) where
  open R use {
    State, StructBuilder, StructReader, PointerBuilder, get_data_field_mut, set_data_field,
    get_pointer_field_mut, get_pointer_field, get_data_field, into_reader, is_null, is_null_mut,
    get_struct, get_struct_mut, get_capability, get_capability_mut, init_struct, set_capability,
    set_struct, clear, set_data, init_data, get_data, get_data_mut,
  }
  open C use {size, target, contents}

  -- A state `t` that a write through pointer `i` of `b` made of `s`: `b` keeps its data and its other pointers.
  pub record Keeps (b : StructBuilder) (i : ℕ) (s t : State) : Type 0 where
    pub same_data :
        (e : Element) (j : ℕ)
        → Fits (size b) e j
        → get_data_field_mut b e j t ≡ get_data_field_mut b e j s
    pub same_pointers :
        (j : ℕ)
        → j < (size b).pointers
        → j ≢ i
        → target (get_pointer_field_mut b j) t ≡ target (get_pointer_field_mut b j) s

  pub record IsLawful : Type 0 where
    -- Data fields.
    pub get_data_field-lt :
        (r : StructReader) (e : Element) (i : ℕ) → get_data_field r e i < 2 ^ bits e
    pub get_data_field_mut-lt :
        (b : StructBuilder) (e : Element) (i : ℕ) (s : State)
        → get_data_field_mut b e i s < 2 ^ bits e
    pub get-set_self :
        (b : StructBuilder) (e : Element) (i v : ℕ) (s : State)
        → Fits (size b) e i
        → v < 2 ^ bits e
        → get_data_field_mut b e i (set_data_field b e i v s) ≡ v
    pub get-set-Apart :
        (b : StructBuilder) (e e' : Element) (i j v : ℕ) (s : State)
        → Fits (size b) e i
        → Fits (size b) e' j
        → Apart e i e' j
        → get_data_field_mut b e' j (set_data_field b e i v s) ≡ get_data_field_mut b e' j s
    pub target-set :
        (b : StructBuilder) (e : Element) (i v : ℕ) (s : State) (p : PointerBuilder)
        → Fits (size b) e i
        → target p (set_data_field b e i v s) ≡ target p s
    -- A capability is its hook.
    pub client_new-hook : (c : R.CapClient) → R.client_new (R.hook c) ≡ c
    -- A malformed message is an error, never a panic.
    pub get_struct-ne_panic : (p : R.PointerReader) (s t : State) → get_struct p s ≢ panic t
    pub get_struct_mut-ne_panic :
        (p : PointerBuilder) (z : StructSize) (s t : State) → get_struct_mut p z s ≢ panic t
    -- Pointers.
    pub is_null-target :
        (p : PointerBuilder) (s : State) → is_null_mut p s ≡ is_null_target (target p s)
    pub get_capability-target :
        (p : PointerBuilder) (s : State) {h : R.ClientHook}
        → target p s ≡ capability h
        → get_capability_mut p s ≡ ok h s
    pub get_struct-target :
        (p : PointerBuilder) (s : State) {b : StructBuilder} (z : StructSize)
        → target p s ≡ structure b
        → z.data_words ≤ (size b).data_words
        → z.pointers ≤ (size b).pointers
        → get_struct_mut p z s ≡ ok b s
    pub get_data-target :
        (p : PointerBuilder) (s : State)
        → shown_mut C (get_data_mut p s) ≡ target_bytes (target p s)
    pub clear-target : (p : PointerBuilder) (s : State) → target p (clear p s) ≡ null
    pub clear-Keeps :
        (b : StructBuilder) (i : ℕ) (s : State)
        → i < (size b).pointers
        → Keeps b i s (clear (get_pointer_field_mut b i) s)
    -- Of a message with its capability table, which `imbue_mut` gives; without one the crate panics.
    pub set_capability-target :
        (p : PointerBuilder) (h : R.ClientHook) (s : State)
        → target p (set_capability p h s) ≡ capability h
    pub set_capability-Keeps :
        (b : StructBuilder) (i : ℕ) (h : R.ClientHook) (s : State)
        → i < (size b).pointers
        → Keeps b i s (set_capability (get_pointer_field_mut b i) h s)
    pub set_data-target :
        (p : PointerBuilder) (bytes : R.DataReader) (s : State)
        → length (contents bytes) < list_limit
        → target p (set_data p bytes s) ≡ blob (contents bytes)
    pub set_data-Keeps :
        (b : StructBuilder) (i : ℕ) (bytes : R.DataReader) (s : State)
        → i < (size b).pointers
        → length (contents bytes) < list_limit
        → Keeps b i s (set_data (get_pointer_field_mut b i) bytes s)
    pub init_data-target :
        (p : PointerBuilder) (n : ℕ) (s : State)
        → n < list_limit
        → target p (init_data p n s).1 ≡ blob (zeros n)
    pub init_data-Keeps :
        (b : StructBuilder) (i n : ℕ) (s : State)
        → i < (size b).pointers
        → n < list_limit
        → Keeps b i s (init_data (get_pointer_field_mut b i) n s).1
    pub init_struct-target :
        (p : PointerBuilder) (z : StructSize) (s : State)
        → target p (init_struct p z s).1 ≡ structure (init_struct p z s).0
    pub init_struct-size :
        (p : PointerBuilder) (z : StructSize) (s : State) → size (init_struct p z s).0 ≡ z
    pub init_struct-data :
        (p : PointerBuilder) (z : StructSize) (s : State) (e : Element) (i : ℕ)
        → Fits z e i
        → get_data_field_mut (init_struct p z s).0 e i (init_struct p z s).1 ≡ 0
    pub init_struct-null :
        (p : PointerBuilder) (z : StructSize) (s : State) (i : ℕ)
        → i < z.pointers
        → target (get_pointer_field_mut (init_struct p z s).0 i) (init_struct p z s).1 ≡ null
    pub init_struct-Keeps :
        (b : StructBuilder) (i : ℕ) (z : StructSize) (s : State)
        → i < (size b).pointers
        → Keeps b i s (init_struct (get_pointer_field_mut b i) z s).1
    pub set_struct-Keeps :
        (b : StructBuilder) (i : ℕ) (r : StructReader) (canonicalize : Bool) (s : State)
        → i < (size b).pointers
        → Keeps b i s (final (set_struct (get_pointer_field_mut b i) r canonicalize s))
    -- A reader of a finished builder sees what the builder holds.
    pub get_data_field-into_reader :
        (b : StructBuilder) (e : Element) (i : ℕ) (s : State)
        → Fits (size b) e i
        → get_data_field (into_reader b s) e i ≡ get_data_field_mut b e i s
    pub is_null-into_reader :
        (b : StructBuilder) (i : ℕ) (s : State)
        → i < (size b).pointers
        → is_null (get_pointer_field (into_reader b s) i)
          ≡ is_null_mut (get_pointer_field_mut b i) s
    pub get_struct-into_reader :
        (b : StructBuilder) (i : ℕ) (s : State) {c : StructBuilder}
        → i < (size b).pointers
        → target (get_pointer_field_mut b i) s ≡ structure c
        → get_struct (get_pointer_field (into_reader b s) i) s ≡ ok (into_reader c s) s
    pub get_data-into_reader :
        (b : StructBuilder) (i : ℕ) (s : State)
        → i < (size b).pointers
        → shown C (get_data (get_pointer_field (into_reader b s) i) s)
          ≡ target_bytes (target (get_pointer_field_mut b i) s)
    pub get_capability-into_reader :
        (b : StructBuilder) (i : ℕ) (s : State) {h : R.ClientHook}
        → i < (size b).pointers
        → target (get_pointer_field_mut b i) s ≡ capability h
        → get_capability (get_pointer_field (into_reader b s) i) s ≡ ok h s
