-- ===== src/Struct/Fields.antt =====
-- Data fields and pointers of typed builders that have room for their struct.
use capnproto_test.Base.{ℕ, ◌^◌, ◌≤◌, ◌<◌, ◌≡◌, ◌≢◌, ◌∙◌, sym, ap, arith}
use capnproto_test.Layout.{Layout, Owned}
use capnproto_test.Layout.Elements.{Element, bits, Apart}
use capnproto_test.Layout.Laws.{
  Content, IsLawful, Keeps, Fits, is_null_target, target_bytes, shown, shown_mut,
}
use capnproto_test.Struct.{Builder}

module _ ⦃R : Layout⦄ (C : Content R) where
  -- The builder was made with at least the size that the schema gives.
  pub record HasRoom {o : Owned} (b : Builder o) : Type 0 where
    pub data_room : o.struct_size.data_words ≤ (C.size b.builder).data_words
    pub pointer_room : o.struct_size.pointers ≤ (C.size b.builder).pointers

module _ ⦃R : Layout⦄ {C : Content R} (L : IsLawful R C) {o : Owned} (b : Builder o)
    (room : HasRoom C b) where
  pub get-set :
      (e : Element) (i v : ℕ) (s : R.State)
      → Fits o.struct_size e i
      → v < 2 ^ bits e
      → R.get_data_field_mut b.builder e i (R.set_data_field b.builder e i v s) ≡ v
  get-set e i v s fits small =
      L.get-set_self b.builder e i v s (omega (arith, room.data_room)) small

  pub get-set_other :
      (e e' : Element) (i j v : ℕ) (s : R.State)
      → Fits o.struct_size e i
      → Fits o.struct_size e' j
      → Apart e i e' j
      → R.get_data_field_mut b.builder e' j (R.set_data_field b.builder e i v s)
        ≡ R.get_data_field_mut b.builder e' j s
  get-set_other e e' i j v s fits fits' apart =
      L.get-set-Apart b.builder e e' i j v s (omega (arith, room.data_room))
        (omega (arith, room.data_room)) apart

  -- A write to a data field leaves each pointer null or not, as it was.
  pub is_null-set :
      (e : Element) (i v j : ℕ) (s : R.State)
      → Fits o.struct_size e i
      → R.is_null_mut (R.get_pointer_field_mut b.builder j) (R.set_data_field b.builder e i v s)
        ≡ R.is_null_mut (R.get_pointer_field_mut b.builder j) s
  is_null-set e i v j s fits =
      L.is_null-target _ _
      ∙ ap is_null_target (L.target-set b.builder e i v s _ (omega (arith, room.data_room)))
      ∙ sym (L.is_null-target _ _)

  pub read-into_reader :
      (e : Element) (i : ℕ) (s : R.State)
      → Fits o.struct_size e i
      → R.get_data_field (R.into_reader b.builder s) e i ≡ R.get_data_field_mut b.builder e i s
  read-into_reader e i s fits =
      L.get_data_field-into_reader b.builder e i s (omega (arith, room.data_room))

  pub is_null-read :
      (i : ℕ) (s : R.State)
      → i < o.struct_size.pointers
      → R.is_null (R.get_pointer_field (R.into_reader b.builder s) i)
        ≡ R.is_null_mut (R.get_pointer_field_mut b.builder i) s
  is_null-read i s h = L.is_null-into_reader b.builder i s (omega (arith, room.pointer_room))

  -- A write to a data field leaves the bytes that a pointer shows.
  pub bytes-set :
      (e : Element) (i v j : ℕ) (s : R.State)
      → Fits o.struct_size e i
      → shown_mut C (
          R.get_data_mut (R.get_pointer_field_mut b.builder j) (R.set_data_field b.builder e i v s))
        ≡ shown_mut C (R.get_data_mut (R.get_pointer_field_mut b.builder j) s)
  bytes-set e i v j s fits =
      L.get_data-target _ _
      ∙ ap target_bytes (L.target-set b.builder e i v s _ (omega (arith, room.data_room)))
      ∙ sym (L.get_data-target _ _)

  pub bytes-read :
      (i : ℕ) (s : R.State)
      → i < o.struct_size.pointers
      → shown C (R.get_data (R.get_pointer_field (R.into_reader b.builder s) i) s)
        ≡ shown_mut C (R.get_data_mut (R.get_pointer_field_mut b.builder i) s)
  bytes-read i s h =
      L.get_data-into_reader b.builder i s (omega (arith, room.pointer_room))
      ∙ sym (L.get_data-target _ _)

  -- What a write through one pointer keeps, at the fields and pointers of the schema.
  module _ {i : ℕ} {s t : R.State} (keeps : Keeps R C b.builder i s t) where
    pub kept_field :
        (e : Element) (j : ℕ)
        → Fits o.struct_size e j
        → R.get_data_field_mut b.builder e j t ≡ R.get_data_field_mut b.builder e j s
    kept_field e j fits = keeps.same_data e j (omega (arith, room.data_room))

    pub kept_null :
        (j : ℕ)
        → j < o.struct_size.pointers
        → j ≢ i
        → R.is_null_mut (R.get_pointer_field_mut b.builder j) t
          ≡ R.is_null_mut (R.get_pointer_field_mut b.builder j) s
    kept_null j h ne =
        L.is_null-target _ _
        ∙ ap is_null_target (keeps.same_pointers j (omega (arith, room.pointer_room)) ne)
        ∙ sym (L.is_null-target _ _)

    pub kept_bytes :
        (j : ℕ)
        → j < o.struct_size.pointers
        → j ≢ i
        → shown_mut C (R.get_data_mut (R.get_pointer_field_mut b.builder j) t)
          ≡ shown_mut C (R.get_data_mut (R.get_pointer_field_mut b.builder j) s)
    kept_bytes j h ne =
        L.get_data-target _ _
        ∙ ap target_bytes (keeps.same_pointers j (omega (arith, room.pointer_room)) ne)
        ∙ sym (L.get_data-target _ _)
