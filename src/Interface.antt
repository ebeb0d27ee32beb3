-- ===== src/Interface.antt =====
-- Typed capabilities: the type `Client` and the trait impls that calculator_capnp.rs repeats for each of
-- the interfaces `calculator`, `value` and `function` with only `TYPE_ID` changed.
use capnproto_test.Base.{ℕ, Bool, Command, ◌>>=◌, ok, panic, ◌≡◌}
use capnproto_test.Layout.{Layout}

-- An interface stands for its `_private::TYPE_ID`.
pub record Interface : Type 0 where
  pub type_id : ℕ

-- `ServerDispatch`
pub record ServerDispatch (T : Type 0) : Type 0 where
  pub server : T

module _ ⦃R : Layout⦄ where
  open R use {State, Error, ClientHook, CapClient, PointerReader, PointerBuilder}

  pub record Client (i : Interface) : Type 0 where
    pub client : CapClient

  -- The trait impls of a `Client`, and `ToClient::into_client`.
  pub record ClientImpls (i : Interface) : Type 1 where
    pub new : ClientHook → Client i
    pub get_from_pointer : PointerReader → Command State Error (Client i)
    pub init_pointer : PointerBuilder → ℕ → Command State Error (Client i)
    pub get_from_pointer_mut : PointerBuilder → Command State Error (Client i)
    pub set_pointer_builder : PointerBuilder → Client i → Bool → Command State Error (Unit {0})
    -- The argument is `ServerHook::new_client` of the type that the caller chooses.
    pub into_client : {T : Type 0} → (ServerDispatch T → CapClient) → T → Client i
    pub type_id : ℕ
    pub clone : Client i → Client i

module _ ⦃R : Layout⦄ (i : Interface) where
  open R use {State, Error, ClientHook, CapClient, PointerReader, PointerBuilder}

  -- `FromClientHook::new`
  abbrev pub client_from_hook : ClientHook → Client i
  client_from_hook h = record { client = R.client_new h }

  -- A capability that is read from a pointer, as its `Client`; the accessors repeat this `match`.
  unfoldable pub read_client : PointerReader → Command State Error (Client i)
  read_client p = do h ← R.get_capability p; ok (client_from_hook h)

  unfoldable pub read_client_mut : PointerBuilder → Command State Error (Client i)
  read_client_mut p = do h ← R.get_capability_mut p; ok (client_from_hook h)

  pub read_client-ok :
      (p : PointerReader) (s : State) (h : ClientHook)
      → R.get_capability p s ≡ ok h s
      → read_client p s ≡ ok (client_from_hook h) s
  unfolding read_client
  read_client-ok p s h e = rw e

  pub read_client_mut-ok :
      (p : PointerBuilder) (s : State) (h : ClientHook)
      → R.get_capability_mut p s ≡ ok h s
      → read_client_mut p s ≡ ok (client_from_hook h) s
  unfolding read_client_mut
  read_client_mut-ok p s h e = rw e

  abbrev pub client_impls : ClientImpls i
  client_impls = record {
    new = client_from_hook;
    get_from_pointer = read_client;
    init_pointer = λ _ _ s. panic s;
    get_from_pointer_mut = read_client_mut;
    set_pointer_builder = λ p from _ s. ok tt (R.set_capability p (R.hook from.client) s);
    into_client = λ new_client u. record { client = new_client (record { server = u }) };
    type_id = i.type_id;
    clone = λ c. record { client = R.client_new (R.add_ref (R.hook c.client)) };
  }
