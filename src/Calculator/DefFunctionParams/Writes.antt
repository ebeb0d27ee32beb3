-- ===== src/Calculator/DefFunctionParams/Writes.antt =====
-- Any sequence of writes to a `def_function_params` against a record of its values.
use capnproto_test.Base.{
  ℕ, ◌^◌, ◌<◌, ◌≡◌, refl, ◌∙◌, ap, List, [], ◌∷◌, ok, Bool, true, false, ◌||◌, arith,
}
use capnproto_test.Layout.{Layout}
use capnproto_test.Layout.Elements.{i32, bits}
use capnproto_test.Layout.Laws.{Content, IsLawful}
use capnproto_test.Struct.{Builder, builder_into_reader}
use capnproto_test.Struct.Made.{
  MadeIf, is_made, is_kept, MadeIf-trans, init_pointer-Made, from_pointer-Made,
  reader_from_pointer-Made,
}
use capnproto_test.Struct.Fields.{HasRoom}
use capnproto_test.Struct.Pointers.{init_pointer-Keeps, init_pointer-not_null}
use capnproto_test.Calculator.Expression
use capnproto_test.Calculator.Expression.{expression}
use capnproto_test.Calculator.DefFunctionParams.{def_function_params, builder_impls}
use capnproto_test.Calculator.DefFunctionParams.Reader
use capnproto_test.Calculator.DefFunctionParams.Builder
use capnproto_test.Calculator.DefFunctionParams.Values.{
  Values, values, read_values, values-set_param_count, values_body, read_values-into_reader,
}

module _ ⦃R : Layout⦄ where
  -- The calls of a builder that write and cannot fail.
  pub data Write : Type 0 where
    set_param_count : ℕ → Write
    init_body : Write

  -- The call.
  unfoldable pub write : Builder def_function_params → Write → R.State → R.State
  write b (set_param_count v) s = Builder.set_param_count b v s
  write b init_body s = (Builder.init_body b s).1

  unfoldable pub write_def_function_params :
      Builder def_function_params → List Write → R.State → R.State
  write_def_function_params b [] s = s
  write_def_function_params b (w ∷ ws) s = write_def_function_params b ws (write b w s)

module _ ⦃R : Layout⦄ where
  -- What a write makes of the values.
  abbrev pub apply : Write → Values → Values
  apply (set_param_count v) x = record x { param_count = v }
  apply init_body x = record x { has_body = true }

  -- The number fits the type of the field.
  abbrev pub IsSmall : Write → Type 0
  IsSmall (set_param_count v) = v < 2 ^ bits i32
  IsSmall init_body = Unit {0}

  abbrev pub apply_all : List Write → Values → Values
  apply_all [] x = x
  apply_all (w ∷ ws) x = apply_all ws (apply w x)

  abbrev pub AllSmall : List Write → Type 0
  AllSmall [] = Unit
  AllSmall (w ∷ ws) = IsSmall w × AllSmall ws

module _ ⦃R : Layout⦄ where
  -- The write makes a new struct behind the pointer `body`.
  abbrev pub makes_body : Write → Bool
  makes_body init_body = true
  makes_body _ = false

  abbrev pub any_makes_body : List Write → Bool
  any_makes_body [] = false
  any_makes_body (w ∷ ws) = makes_body w || any_makes_body ws

module _ ⦃R : Layout⦄ (C : Content R) (b : Builder def_function_params) where
  -- `get_body` of the builder and of a reader of it give the same struct, of just the size of the schema.
  pub record MadeBody (t : R.State) : Type 0 where
    pub made : Builder expression
    pub exact : C.size made.builder ≡ expression.struct_size
    pub get : Builder.get_body b t ≡ ok made t
    pub read :
        Reader.get_body (builder_impls.into_reader b t) t
        ≡ ok (Expression.builder_impls.into_reader made t) t

  -- Of the states before and after writes that made such a struct, or made none.
  abbrev pub ShowsBody : Bool → R.State → R.State → Type 0
  ShowsBody true s t = MadeBody t
  ShowsBody false s t =
      C.target (R.get_pointer_field_mut b.builder 0) t
      ≡ C.target (R.get_pointer_field_mut b.builder 0) s

module _ ⦃R : Layout⦄ {C : Content R} (L : IsLawful R C) (b : Builder def_function_params)
    (room : HasRoom C b) where
  values-write :
      (w : Write) (s : R.State) → IsSmall w → values b (write b w s) ≡ apply w (values b s)
  unfolding write Builder.init_body
  values-write (set_param_count v) s h = values-set_param_count L b room v s h
  values-write init_body s h =
      values_body L b room s _ (init_pointer-Keeps L expression b 0 s room (omega arith))
        (init_pointer-not_null L expression (R.get_pointer_field_mut b.builder 0) s)

  pub write_def_function_params-values :
      (ws : List Write) (s : R.State)
      → AllSmall ws
      → let t = write_def_function_params b ws s in
        (values b t ≡ apply_all ws (values b s))
        × (read_values (builder_impls.into_reader b t) ≡ apply_all ws (values b s))
  unfolding write_def_function_params
  write_def_function_params-values [] s small = (refl, read_values-into_reader L b room s)
  write_def_function_params-values (w ∷ ws) s (h, small) =
      let (e, e') = write_def_function_params-values ws (write b w s) small in
      let step = ap (apply_all ws) (values-write w s h) in (e ∙ step, e' ∙ step)

  write-MadeIf :
      (w : Write) (s : R.State) → IsSmall w → MadeIf C expression b 0 (makes_body w) s (write b w s)
  unfolding write Builder.set_param_count Builder.init_body
  write-MadeIf (set_param_count v) s h =
      is_kept (L.target-set b.builder i32 0 v s _ (omega (arith, room.data_room)))
  write-MadeIf init_body s h = is_made (init_pointer-Made expression b 0 L s)

  write_def_function_params-MadeIf :
      (ws : List Write) (s : R.State)
      → AllSmall ws
      → MadeIf C expression b 0 (any_makes_body ws) s (write_def_function_params b ws s)
  unfolding write_def_function_params
  write_def_function_params-MadeIf [] s small = is_kept refl
  write_def_function_params-MadeIf (w ∷ ws) s (h, small) =
      MadeIf-trans expression b 0 _ _ (write-MadeIf w s h)
        (write_def_function_params-MadeIf ws _ small)

  MadeIf-Shows : (x : Bool) (s t : R.State) → MadeIf C expression b 0 x s t → ShowsBody C b x s t
  unfolding Builder.get_body Reader.get_body builder_into_reader
  MadeIf-Shows true s t (is_made h) = record {
    made = h.made;
    exact = h.exact;
    get = from_pointer-Made expression b 0 L t h;
    read = reader_from_pointer-Made expression b 0 L t h room (omega arith);
  }
  MadeIf-Shows false s t (is_kept e) = e

  -- After any sequence of calls of `set_param_count` and `init_body` on parameters of `defFunction`
  -- with room, with numbers that fit the field, `get_param_count` and `has_body`, of the builder and
  -- of a reader of it, are what the same updates of a record make of those before; and where
  -- `init_body` was called, `get_body` of both gives the same expression, of just the size of the
  -- schema, while otherwise its pointer holds what it held.
  pub write_def_function_params_lem :
      (ws : List Write) (s : R.State)
      → AllSmall ws
      → let t = write_def_function_params b ws s in
        (values b t ≡ apply_all ws (values b s))
        × (read_values (builder_impls.into_reader b t) ≡ apply_all ws (values b s))
        × ShowsBody C b (any_makes_body ws) s t
  write_def_function_params_lem ws s small =
      let (e, e') = write_def_function_params-values ws s small in
      (e, e', MadeIf-Shows _ s _ (write_def_function_params-MadeIf ws s small))
