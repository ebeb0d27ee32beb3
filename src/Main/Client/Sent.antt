-- ===== src/Main/Client/Sent.antt =====
-- What the first request of `client_main` carries.
use capnproto_test.Base.{ℕ, ◌^◌, ◌<◌, ◌≡◌, ◌∙◌, ok, known, arith}
use capnproto_test.Layout.{Layout, Owned}
use capnproto_test.Layout.Rpc.{Rpc}
use capnproto_test.Layout.Elements.{u16, f64}
use capnproto_test.Layout.Laws.{Content, IsLawful}
use capnproto_test.Struct.{Builder, Reader, builder_into_reader}
use capnproto_test.Struct.Fields.{HasRoom}
use capnproto_test.Struct.Pointers.{
  reader_from_pointer-target, init_pointer-target, init_pointer-HasRoom,
}
use capnproto_test.Calculator.Expression
use capnproto_test.Calculator.Expression.{expression}
use capnproto_test.Calculator.Expression.Which.{literal}
use capnproto_test.Calculator.Expression.Reader as ExpressionReader
use capnproto_test.Calculator.Expression.Builder as ExpressionBuilder
use capnproto_test.Calculator.Expression.Union.{set_literal-which}
use capnproto_test.Calculator.EvaluateParams
use capnproto_test.Calculator.EvaluateParams.{evaluate_params}
use capnproto_test.Calculator.EvaluateParams.Reader as EvaluateReader
use capnproto_test.Calculator.EvaluateParams.Builder as EvaluateBuilder
use capnproto_test.Main.World.{Network}
use capnproto_test.Main.Client.{literal_123, fill_request}

module _ ⦃R : Layout⦄ {C : Content R} (L : IsLawful R C) where
  -- A literal written into an expression leaves every pointer as it was.
  pub set_literal-target :
      (c : Builder expression)
      → HasRoom C c
      → (v : ℕ) (p : R.PointerBuilder) (s : R.State)
      → C.target p (ExpressionBuilder.set_literal c v s) ≡ C.target p s
  unfolding ExpressionBuilder.set_literal
  set_literal-target c room v p s =
      L.target-set c.builder f64 0 v _ p (omega (arith, room.data_room))
      ∙ L.target-set c.builder u16 4 0 s p (omega (arith, room.data_room))

  -- A literal put into a new expression of evaluate parameters is what a reader of the parameters finds.
  pub init_expression-set_literal :
      (b : Builder evaluate_params)
      → HasRoom C b
      → (v : ℕ) (s : R.State) → v < 2 ^ 64
      → let (e, u) = EvaluateBuilder.init_expression b s in
        let t = ExpressionBuilder.set_literal e v u in
        let r = Expression.builder_impls.into_reader e t in
        (EvaluateReader.get_expression (EvaluateParams.builder_impls.into_reader b t) t ≡ ok r t)
        × (ExpressionReader.which r t ≡ ok (known (literal v)) t)
  unfolding EvaluateBuilder.init_expression EvaluateReader.get_expression builder_into_reader
  init_expression-set_literal b room v s small =
      let p = R.get_pointer_field_mut b.builder 0 in
      let (e, u) = EvaluateBuilder.init_expression b s in
      let e_room = init_pointer-HasRoom L expression p s in
      (
        reader_from_pointer-target L expression b e 0 _ room (omega arith)
            (set_literal-target e e_room v p u ∙ init_pointer-target L expression p s),
        (set_literal-which L e e_room u v small).1,
      )

module _ ⦃R : Layout⦄ ⦃rpc : Rpc⦄ {C : Content R} (L : IsLawful R C) {IoError : Type 0}
    (net : Network IoError) where
  -- Where the parameters that a request gives have room for their struct, a reader of them after
  -- `client_main` has filled the request finds an expression, and `which` of the expression is the
  -- literal 123.0.
  pub fill_request_lem :
      {q : Owned} (request : rpc.Request evaluate_params q) (s : R.State)
      → let b = EvaluateParams.builder_impls.new (net.get request s).0 in
        HasRoom C b
        → let t = fill_request net request s in
          (r : Reader expression) × (EvaluateReader.get_expression
              (EvaluateParams.builder_impls.into_reader b t)
              t
            ≡ ok r t)
          × (ExpressionReader.which r t ≡ ok (known (literal literal_123)) t)
  unfolding fill_request
  fill_request_lem request s room =
      let b = EvaluateParams.builder_impls.new (net.get request s).0 in
      let (e, e') =
        init_expression-set_literal L b room literal_123 (net.get request s).1 (omega arith) in
      (_, e, e')
