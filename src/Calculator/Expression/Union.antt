-- ===== src/Calculator/Expression/Union.antt =====
-- The union of `expression`: each setter is read back by `which`, from the builder and from a reader of it.
use capnproto_test.Base.{
  ℕ, ◌^◌, ◌≤◌, ◌<◌, ◌≡◌, ◌↔◌, ◌∙◌, refl, false, ok, Result, known, not_in_schema, arith,
}
use capnproto_test.Layout.{Layout}
use capnproto_test.Layout.Elements.{u16, u32, f64}
use capnproto_test.Layout.Laws.{Content, IsLawful, null}
use capnproto_test.Struct.{Reader, Builder, builder_into_reader}
use capnproto_test.Struct.Fields.{HasRoom, get-set, get-set_other, read-into_reader, kept_field}
use capnproto_test.Interface.{Client, read_client-ok, read_client_mut-ok}
use capnproto_test.Calculator.Value.Interface.{value}
use capnproto_test.Calculator.Expression.{expression, builder_impls}
use capnproto_test.Calculator.Expression.Call
use capnproto_test.Calculator.Expression.Call.{call}
use capnproto_test.Calculator.Expression.Call.Builder as CallBuilder
use capnproto_test.Calculator.Expression.Which.{literal, previous_result, parameter, call_case}
use capnproto_test.Calculator.Expression.Reader
use capnproto_test.Calculator.Expression.Builder

module _ ⦃R : Layout⦄ (r : Reader expression) (s : R.State) where
  -- `which` of a reader of an expression refuses the discriminant with its number, and changes
  -- nothing, exactly when the discriminant is 4 or more.
  pub expression_not_in_schema :
      (Reader.which r s ≡ ok (not_in_schema (R.get_data_field r.reader u16 4)) s)
      ↔ (4 ≤ R.get_data_field r.reader u16 4)
  unfolding Reader.which
  expression_not_in_schema = (λ e. ground arith, λ h. ground arith)

module _ ⦃R : Layout⦄ {C : Content R} (L : IsLawful R C) (b : Builder expression)
    (room : HasRoom C b) (s : R.State) where
  -- A literal below 2 ^ 64 that `set_literal` writes into an expression with room is the one that
  -- `which` gives, bit for bit, of the builder and of a reader of it.
  pub set_literal-which :
      (v : ℕ)
      → v < 2 ^ 64
      → let t = Builder.set_literal b v s in
        (Builder.which b t ≡ ok (known (literal v)) t)
        × (Reader.which (builder_impls.into_reader b t) t ≡ ok (known (literal v)) t)
  unfolding Builder.set_literal Builder.which Reader.which builder_into_reader
  set_literal-which v h =
      let u = R.set_data_field b.builder u16 4 0 s in
      let t = R.set_data_field b.builder f64 0 v u in
      let tag =
        get-set_other L b room f64 u16 0 4 v u (omega arith) (omega arith) (omega arith)
        ∙ get-set L b room u16 4 0 s (omega arith) (omega arith) in
      let field = get-set L b room f64 0 v u (omega arith) h in
      (
        ground (arith, tag, field),
        ground (
          arith,
          tag,
          field,
          read-into_reader L b room u16 4 t (omega arith),
          read-into_reader L b room f64 0 t (omega arith),
        ),
      )

  -- A parameter index below 2 ^ 32 that `set_parameter` writes into an expression with room is the one
  -- that `which` gives, of the builder and of a reader of it.
  pub set_parameter-which :
      (n : ℕ)
      → n < 2 ^ 32
      → let t = Builder.set_parameter b n s in
        (Builder.which b t ≡ ok (known (parameter n)) t)
        × (Reader.which (builder_impls.into_reader b t) t ≡ ok (known (parameter n)) t)
  unfolding Builder.set_parameter Builder.which Reader.which builder_into_reader
  set_parameter-which n h =
      let u = R.set_data_field b.builder u16 4 2 s in
      let t = R.set_data_field b.builder u32 0 n u in
      let tag =
        get-set_other L b room u32 u16 0 4 n u (omega arith) (omega arith) (omega arith)
        ∙ get-set L b room u16 4 2 s (omega arith) (omega arith) in
      let field = get-set L b room u32 0 n u (omega arith) h in
      (
        ground (arith, tag, field),
        ground (
          arith,
          tag,
          field,
          read-into_reader L b room u16 4 t (omega arith),
          read-into_reader L b room u32 0 t (omega arith),
        ),
      )

  -- The client that `set_previous_result` puts into an expression with room is the one that `which`
  -- gives, of the builder and of a reader of it.
  pub set_previous_result-which :
      (v : Client value)
      → let t = Builder.set_previous_result b v s in
        (Builder.which b t ≡ ok (known (previous_result (Result.ok v))) t)
        × (Reader.which (builder_impls.into_reader b t) t
            ≡ ok (known (previous_result (Result.ok v))) t)
  unfolding Builder.set_previous_result Builder.which Reader.which builder_into_reader
  set_previous_result-which v =
      let u = R.set_data_field b.builder u16 4 1 s in
      let p = R.get_pointer_field_mut b.builder 0 in
      let t = R.set_capability p (R.hook v.client) u in
      let tag =
        kept_field L b room
          (L.set_capability-Keeps b.builder 0 (R.hook v.client) u
            (omega (arith, room.pointer_room)))
          u16 4 (omega arith)
        ∙ get-set L b room u16 4 1 s (omega arith) (omega arith) in
      let here = L.set_capability-target p (R.hook v.client) u in
      (
        ground (
          arith,
          tag,
          read_client_mut-ok value p t _ (L.get_capability-target p t here),
          L.client_new-hook v.client,
        ),
        ground (
          arith,
          tag,
          read-into_reader L b room u16 4 t (omega arith),
          read_client-ok value (R.get_pointer_field (R.into_reader b.builder t) 0) t _
              (L.get_capability-into_reader b.builder 0 t (omega (arith, room.pointer_room)) here),
          L.client_new-hook v.client,
        ),
      )

  -- After `init_call` on an expression with room, `which` gives the call, over the same struct, of the
  -- builder and of a reader of it, the pointer of the function is null, and `has_params` is false.
  pub init_call_lem :
      let made = Builder.init_call b s in
      (made.0.builder ≡ b.builder)
      × (Builder.which b made.1 ≡ ok (known (call_case made.0)) made.1)
      × (Reader.which (builder_impls.into_reader b made.1) made.1
          ≡ ok (known (call_case (Call.builder_impls.into_reader made.0 made.1))) made.1)
      × (C.target (R.get_pointer_field_mut b.builder 0) made.1 ≡ null)
      × (CallBuilder.has_params made.0 made.1 ≡ false)
  unfolding Builder.init_call Builder.which Reader.which CallBuilder.has_params builder_into_reader
  init_call_lem =
      let p = R.get_pointer_field_mut b.builder 0 in
      let q = R.get_pointer_field_mut b.builder 1 in
      let t = R.set_data_field b.builder u16 4 3 s in
      let u = R.clear p t in
      let v = R.clear q u in
      let keep0 = L.clear-Keeps b.builder 0 t (omega (arith, room.pointer_room)) in
      let keep1 = L.clear-Keeps b.builder 1 u (omega (arith, room.pointer_room)) in
      let tag =
        kept_field L b room keep1 u16 4 (omega arith)
        ∙ kept_field L b room keep0 u16 4 (omega arith)
        ∙ get-set L b room u16 4 3 s (omega arith) (omega arith) in
      (
        refl,
        ground (arith, tag),
        ground (arith, tag, read-into_reader L b room u16 4 v (omega arith)),
        keep1.same_pointers 0 (omega (arith, room.pointer_room)) (omega arith) ∙ L.clear-target p t,
        ground (arith, L.is_null-target q v, L.clear-target q u),
      )
