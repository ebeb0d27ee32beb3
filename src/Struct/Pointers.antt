-- ===== src/Struct/Pointers.antt =====
-- A struct that `init_pointer` makes behind a pointer of a typed builder, seen from both ends.
use capnproto_test.Base.{[], some, ℕ, ◌<◌, ◌≡◌, ◌∙◌, ap, ok, true, false, arith}
use capnproto_test.Layout.{Layout, Owned}
use capnproto_test.Layout.Laws.{
  Content, IsLawful, Keeps, Fits, structure, is_null_target, target_bytes, shown_mut,
}
use capnproto_test.Layout.Elements.{Element}
use capnproto_test.Struct.{
  Builder, builder_init_pointer, builder_from_pointer, builder_into_reader, reader_from_pointer,
}
use capnproto_test.Struct.Fields.{HasRoom}

module _ ⦃R : Layout⦄ {C : Content R} (L : IsLawful R C) where
  -- A pointer that holds a struct with room gives its builder, and a reader of the parent its reader.
  module _ {o : Owned} (c : Builder o) (room : HasRoom C c) (s : R.State) where
    pub from_pointer-target :
        (p : R.PointerBuilder)
        → C.target p s ≡ structure c.builder
        → builder_from_pointer o p s ≡ ok c s
    unfolding builder_from_pointer
    from_pointer-target p e =
        rw (L.get_struct-target p s o.struct_size e room.data_room room.pointer_room)

  pub reader_from_pointer-target :
      (o : Owned) {o' : Owned} (b : Builder o') (c : Builder o) (i : ℕ) (s : R.State)
      → HasRoom C b
      → i < o'.struct_size.pointers
      → C.target (R.get_pointer_field_mut b.builder i) s ≡ structure c.builder
      → reader_from_pointer o (R.get_pointer_field (R.into_reader b.builder s) i) s
        ≡ ok (builder_into_reader o c s) s
  unfolding reader_from_pointer builder_into_reader
  reader_from_pointer-target o b c i s room small e =
      rw (L.get_struct-into_reader b.builder i s (omega (arith, room.pointer_room)) e)

  module _ (o : Owned) (p : R.PointerBuilder) (s : R.State) where
    pub init_pointer-target :
        C.target p (builder_init_pointer o p 0 s).1
        ≡ structure (builder_init_pointer o p 0 s).0.builder
    unfolding builder_init_pointer
    init_pointer-target = L.init_struct-target p o.struct_size s

    pub init_pointer-HasRoom : HasRoom C (builder_init_pointer o p 0 s).0
    unfolding builder_init_pointer
    init_pointer-HasRoom = record {
      data_room = rw (L.init_struct-size p o.struct_size s) (omega arith);
      pointer_room = rw (L.init_struct-size p o.struct_size s) (omega arith);
    }

    -- The new struct is empty.
    pub init_pointer-data :
        (e : Element) (i : ℕ)
        → Fits o.struct_size e i
        → R.get_data_field_mut
            (builder_init_pointer o p 0 s).0.builder
            e
            i
            (builder_init_pointer o p 0 s).1
          ≡ 0
    unfolding builder_init_pointer
    init_pointer-data e i fits = L.init_struct-data p o.struct_size s e i fits

    pub init_pointer-null :
        (i : ℕ)
        → i < o.struct_size.pointers
        → R.is_null_mut
            (R.get_pointer_field_mut (builder_init_pointer o p 0 s).0.builder i)
            (builder_init_pointer o p 0 s).1
          ≡ true
    unfolding builder_init_pointer
    init_pointer-null i small =
        L.is_null-target _ _ ∙ ap is_null_target (L.init_struct-null p o.struct_size s i small)

    pub init_pointer-bytes :
        (i : ℕ)
        → i < o.struct_size.pointers
        → shown_mut C (
            R.get_data_mut
              (R.get_pointer_field_mut (builder_init_pointer o p 0 s).0.builder i)
              (builder_init_pointer o p 0 s).1)
          ≡ some []
    unfolding builder_init_pointer
    init_pointer-bytes i small =
        L.get_data-target _ _ ∙ ap target_bytes (L.init_struct-null p o.struct_size s i small)

    pub init_pointer-not_null : R.is_null_mut p (builder_init_pointer o p 0 s).1 ≡ false
    unfolding builder_init_pointer
    init_pointer-not_null =
        L.is_null-target _ _ ∙ ap is_null_target (L.init_struct-target p o.struct_size s)

  pub init_pointer-Keeps :
      {o : Owned} (o' : Owned) (b : Builder o) (i : ℕ) (s : R.State)
      → HasRoom C b
      → i < o.struct_size.pointers
      → Keeps R C b.builder i s
          (builder_init_pointer o' (R.get_pointer_field_mut b.builder i) 0 s).1
  unfolding builder_init_pointer
  init_pointer-Keeps o' b i s room small =
      L.init_struct-Keeps b.builder i o'.struct_size s (omega (arith, room.pointer_room))
