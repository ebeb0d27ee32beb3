-- ===== src/Layout/Rpc.antt =====
-- What the generated clients and servers take from `capnp::capability`.
use capnproto_test.Base.{ℕ, ◌≡◌, Option}
use capnproto_test.Layout.{Layout, Owned}

pub record Rpc ⦃R : Layout⦄ : Type 1 where
  -- `Request<P, Q>`, and `Client::new_call`
  pub Request : Owned → Owned → Type 0
  pub new_call :
      (p q : Owned) → R.CapClient → ℕ → ℕ → Option R.MessageSize → R.State → Request p q × R.State
  -- `Params<any_pointer::Owned>` and `Results<any_pointer::Owned>`
  pub AnyParams : Type 0
  pub AnyResults : Type 0
  pub Params : Owned → Type 0
  pub Results : Owned → Type 0
  -- `internal_get_typed_params` and `internal_get_typed_results`
  pub typed_params : (o : Owned) → AnyParams → Params o
  pub typed_results : (o : Owned) → AnyResults → Results o
  -- `Promise<(), Error>` and `Promise::err`
  pub Promise : Type 0
  pub promise_err : R.Error → Promise

-- The ids that a request carries to the server.
pub record Ids ⦃R : Layout⦄ (rpc : Rpc) : Type 0 where
  pub interface_id : {p q : Owned} (request : rpc.Request p q) → ℕ
  pub method_id : {p q : Owned} (request : rpc.Request p q) → ℕ

-- `new_call` documents that the request goes to the method that its caller names.
pub record IsRouting ⦃R : Layout⦄ (rpc : Rpc) (ids : Ids rpc) : Type 0 where
  pub interface_id-new_call :
      (p q : Owned) (c : R.CapClient) (i m : ℕ) (size : Option R.MessageSize) (s : R.State)
      → ids.interface_id (rpc.new_call p q c i m size s).0 ≡ i
  pub method_id-new_call :
      (p q : Owned) (c : R.CapClient) (i m : ℕ) (size : Option R.MessageSize) (s : R.State)
      → ids.method_id (rpc.new_call p q c i m size s).0 ≡ m
