-- ===== src/Frames/Rational/Writes.antt =====
-- Any sequence of writes to a `rational` against a record of its values.
use capnproto_test.Base.{ℕ, ◌^◌, ◌<◌, ◌≡◌, refl, ◌∙◌, ap, List, [], ◌∷◌}
use capnproto_test.Layout.{Layout}
use capnproto_test.Layout.Elements.{u32, bits}
use capnproto_test.Layout.Laws.{Content, IsLawful}
use capnproto_test.Struct.{Builder}
use capnproto_test.Struct.Fields.{HasRoom}
use capnproto_test.Frames.Rational.{rational, builder_impls}
use capnproto_test.Frames.Rational.Builder
use capnproto_test.Frames.Rational.Values.{
  Values, values, read_values, values-set_num, values-set_den, read_values-into_reader,
}

module _ ⦃R : Layout⦄ where
  -- The calls of a builder that write and cannot fail.
  pub data Write : Type 0 where
    set_num : ℕ → Write
    set_den : ℕ → Write

  -- The call.
  unfoldable pub write : Builder rational → Write → R.State → R.State
  write b (set_num v) s = Builder.set_num b v s
  write b (set_den v) s = Builder.set_den b v s

  unfoldable pub write_rational : Builder rational → List Write → R.State → R.State
  write_rational b [] s = s
  write_rational b (w ∷ ws) s = write_rational b ws (write b w s)

module _ ⦃R : Layout⦄ where
  -- What a write makes of the values.
  abbrev pub apply : Write → Values → Values
  apply (set_num v) x = record x { num = v }
  apply (set_den v) x = record x { den = v }

  -- The number fits the type of the field.
  abbrev pub IsSmall : Write → Type 0
  IsSmall (set_num v) = v < 2 ^ bits u32
  IsSmall (set_den v) = v < 2 ^ bits u32

  abbrev pub apply_all : List Write → Values → Values
  apply_all [] x = x
  apply_all (w ∷ ws) x = apply_all ws (apply w x)

  abbrev pub AllSmall : List Write → Type 0
  AllSmall [] = Unit
  AllSmall (w ∷ ws) = IsSmall w × AllSmall ws

module _ ⦃R : Layout⦄ {C : Content R} (L : IsLawful R C) (b : Builder rational)
    (room : HasRoom C b) where
  values-write :
      (w : Write) (s : R.State) → IsSmall w → values b (write b w s) ≡ apply w (values b s)
  unfolding write
  values-write (set_num v) s h = values-set_num L b room v s h
  values-write (set_den v) s h = values-set_den L b room v s h

  pub write_rational-values :
      (ws : List Write) (s : R.State)
      → AllSmall ws
      → let t = write_rational b ws s in
        (values b t ≡ apply_all ws (values b s))
        × (read_values (builder_impls.into_reader b t) ≡ apply_all ws (values b s))
  unfolding write_rational
  write_rational-values [] s small = (refl, read_values-into_reader L b room s)
  write_rational-values (w ∷ ws) s (h, small) =
      let (e, e') = write_rational-values ws (write b w s) small in
      let step = ap (apply_all ws) (values-write w s h) in (e ∙ step, e' ∙ step)

  -- After any sequence of calls of the setters of a rational with room, with numbers that fit their
  -- fields, the getters of the builder and of a reader of it give what the same updates of a record
  -- make of the values before.
  pub write_rational_lem :
      (ws : List Write) (s : R.State)
      → AllSmall ws
      → let t = write_rational b ws s in
        (values b t ≡ apply_all ws (values b s))
        × (read_values (builder_impls.into_reader b t) ≡ apply_all ws (values b s))
  write_rational_lem = write_rational-values
