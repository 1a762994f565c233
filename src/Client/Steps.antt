-- ===== src/Client/Steps.antt =====
-- What each step of a round of the proxy does: src/client/proxy.c.
use utu.Prelude.{◌≡◌, ◌⊎◌, inl, inr, Bool, true, false, some}
use utu.Prelude.Calls.{ok, then_call-ok, or_stop-ok, ok-injective}
use utu.Stackish.Node.{Bytes}
use utu.Crypto.{CryptState, Library}
use utu.Client.Proxy.{
  Message, Proxy, hub_recv, hub_send, listener_recv, listener_send, was_read, was_written,
  message_of, read_hub, write_listener, read_listener, write_hub,
}

module _ (lib : Library) where
  pub read_hub-step :
      (p a : Proxy) (mask : Bool)
      → read_hub lib mask p ≡ ok a
      → (p ≡ a)
        ⊎ ((u : CryptState) × (m : Message) × (rest : Bytes) × (hub_recv lib p.state p.hub.incoming
              ≡ ok (u, m, rest))
            × (record p { state = u; hub = was_read p.hub m rest } ≡ a))
  unfolding read_hub
  read_hub-step p a false e = inl (ok-injective p a e)
  read_hub-step p a true e =
      let ((u, m, rest), b, c) = then_call-ok (hub_recv lib p.state p.hub.incoming) _ a e in
      inr (u, m, rest, b, ok-injective _ a c)

  pub write_listener-step :
      (p a : Proxy) (mask : Bool)
      → write_listener lib mask p ≡ ok a
      → (p ≡ a)
        ⊎ ((m : Message) × (bytes : Bytes) × (p.hub.message ≡ some m)
            × (listener_send lib m ≡ ok bytes)
            × (record p { hub = was_written p.hub bytes } ≡ a))
  unfolding write_listener
  write_listener-step p a false e = inl (ok-injective p a e)
  write_listener-step p a true e =
      let (m, b, c) = then_call-ok (message_of p.hub) _ a e in
      let (bytes, d, f) = then_call-ok (listener_send lib m) _ a c in
      inr (m, bytes, or_stop-ok p.hub.message m b, d, ok-injective _ a f)

  pub read_listener-step :
      (p a : Proxy) (mask : Bool)
      → read_listener lib mask p ≡ ok a
      → (p ≡ a)
        ⊎ ((m : Message) × (rest : Bytes) × (listener_recv lib p.listener.incoming ≡ ok (m, rest))
            × (record p { listener = was_read p.listener m rest } ≡ a))
  unfolding read_listener
  read_listener-step p a false e = inl (ok-injective p a e)
  read_listener-step p a true e =
      let ((m, rest), b, c) = then_call-ok (listener_recv lib p.listener.incoming) _ a e in
      inr (m, rest, b, ok-injective _ a c)

  pub write_hub-step :
      (p a : Proxy) (mask : Bool)
      → write_hub lib mask p ≡ ok a
      → (p ≡ a)
        ⊎ ((m : Message) × (u : CryptState) × (bytes : Bytes) × (p.listener.message ≡ some m)
            × (hub_send lib p.state m ≡ ok (u, bytes))
            × (record p { state = u; listener = was_written p.listener bytes } ≡ a))
  unfolding write_hub
  write_hub-step p a false e = inl (ok-injective p a e)
  write_hub-step p a true e =
      let (m, b, c) = then_call-ok (message_of p.listener) _ a e in
      let ((u, bytes), d, f) = then_call-ok (hub_send lib p.state m) _ a c in
      inr (m, u, bytes, or_stop-ok p.listener.message m b, d, ok-injective _ a f)
