-- ===== src/Struct/Made.antt =====
-- A pointer of a typed builder across writes some of which make a new struct behind it.
use capnproto_test.Base.{ℕ, ◌<◌, ◌≡◌, ◌∙◌, Bool, true, false, ◌||◌, ok, arith}
use capnproto_test.Layout.{Layout, Owned}
use capnproto_test.Layout.Laws.{Content, IsLawful, structure}
use capnproto_test.Struct.{
  Builder, builder_init_pointer, builder_from_pointer, builder_into_reader, reader_from_pointer,
}
use capnproto_test.Struct.Fields.{HasRoom}
use capnproto_test.Struct.Pointers.{from_pointer-target, reader_from_pointer-target}

module _ ⦃R : Layout⦄ (C : Content R) {o' : Owned} (o : Owned) (b : Builder o') (i : ℕ) where
  -- Pointer `i` of `b` holds a struct of just the size of `o`.
  pub record Made (t : R.State) : Type 0 where
    pub made : Builder o
    pub exact : C.size made.builder ≡ o.struct_size
    pub here : C.target (R.get_pointer_field_mut b.builder i) t ≡ structure made.builder

  -- Between `s` and `t` such a struct was made, or else the pointer kept what it held.
  pub data MadeIf : Bool → R.State → R.State → Type 0 where
    is_made : {s t : R.State} → Made t → MadeIf true s t
    is_kept :
        {s t : R.State}
        → C.target (R.get_pointer_field_mut b.builder i) t
          ≡ C.target (R.get_pointer_field_mut b.builder i) s
        → MadeIf false s t

module _ ⦃R : Layout⦄ {C : Content R} {o' : Owned} (o : Owned) (b : Builder o') (i : ℕ) where
  pub MadeIf-trans :
      (x y : Bool) {s t u : R.State}
      → MadeIf C o b i x s t
      → MadeIf C o b i y t u
      → MadeIf C o b i (x || y) s u
  MadeIf-trans true true (is_made h) (is_made k) = is_made k
  MadeIf-trans true false (is_made h) (is_kept k) =
      is_made (record { made = h.made; exact = h.exact; here = k ∙ h.here })
  MadeIf-trans false true (is_kept h) (is_made k) = is_made k
  MadeIf-trans false false (is_kept h) (is_kept k) = is_kept (k ∙ h)

  module _ (L : IsLawful R C) where
    pub init_pointer-Made :
        (s : R.State)
        → Made C o b i (builder_init_pointer o (R.get_pointer_field_mut b.builder i) 0 s).1
    unfolding builder_init_pointer
    init_pointer-Made s = record {
      made = (builder_init_pointer o (R.get_pointer_field_mut b.builder i) 0 s).0;
      exact = L.init_struct-size (R.get_pointer_field_mut b.builder i) o.struct_size s;
      here = L.init_struct-target (R.get_pointer_field_mut b.builder i) o.struct_size s;
    }

    Made-HasRoom : {t : R.State} (h : Made C o b i t) → HasRoom C h.made
    Made-HasRoom h = record {
      data_room = rw h.exact (omega arith);
      pointer_room = rw h.exact (omega arith);
    }

    pub from_pointer-Made :
        (t : R.State) (h : Made C o b i t)
        → builder_from_pointer o (R.get_pointer_field_mut b.builder i) t ≡ ok h.made t
    from_pointer-Made t h = from_pointer-target L h.made (Made-HasRoom h) t _ h.here

    pub reader_from_pointer-Made :
        (t : R.State) (h : Made C o b i t)
        → HasRoom C b
        → i < o'.struct_size.pointers
        → reader_from_pointer o (R.get_pointer_field (R.into_reader b.builder t) i) t
          ≡ ok (builder_into_reader o h.made t) t
    reader_from_pointer-Made t h room small =
        reader_from_pointer-target L o b h.made i t room small h.here
