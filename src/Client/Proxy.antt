-- ===== src/Client/Proxy.antt =====
-- The proxy of src/client/proxy.c: messages of the hub, messages of the listener, and the loop that
-- hands them on. A call that fails ends the loop; what the listener is told then is left out.
use utu.Prelude.{Bool, true, false, ◌&&◌, Option, none, some, List, [], ◌∷◌, ◌++◌}
use utu.Prelude.Calls.{Call, ok, failed, then_call, or_stop}
use utu.Stackish.Node.{Bytes, Node}
use utu.Stackish.Print.{bstr}
use utu.Crypto.{CryptState, Library}
use utu.Crypto.Packet.{encrypt_node, decrypt_node}
use utu.Client.{NodesRead, readnodes, write_header_node, writenodes}

abbrev pub Message : Type 0
Message = Node × Node

-- The header and the body of what was read; the checks ask for both.
abbrev pub both : NodesRead → Call (Message × Bytes)
both r = elim r.header [
  | none ↦ failed
  | some header ↦ elim r.body [ none ↦ failed | some body ↦ ok ((header, body), r.rest) ]
]

-- `Proxy_hub_recv` and the check of what it returns.
unfoldable pub hub_recv : Library → CryptState → Bytes → Call (CryptState × Message × Bytes)
hub_recv lib s incoming = then_call (readnodes lib.fuel lib.floats incoming) (λ r.
    then_call (both r) (λ ((header, packet), rest).
      then_call (or_stop (bstr lib.floats header)) (λ hdata.
        then_call (decrypt_node lib s s.me.skey hdata packet)
          (λ (u, msg). ok (u, (header, msg), rest)))))

-- `Proxy_hub_send`
unfoldable pub hub_send : Library → CryptState → Message → Call (CryptState × Bytes)
hub_send lib s (header, body) = then_call (or_stop (bstr lib.floats header)) (λ hdata.
    then_call (encrypt_node lib s s.them.skey hdata body) (λ (u, msg).
      then_call (write_header_node lib.floats hdata (some msg)) (λ bytes. ok (u, bytes))))

-- `Proxy_listener_recv` and the check of what it returns, and `Proxy_listener_send`.
unfoldable pub listener_recv : Library → Bytes → Call (Message × Bytes)
listener_recv lib incoming = then_call (readnodes lib.fuel lib.floats incoming) both

unfoldable pub listener_send : Library → Message → Call Bytes
listener_send lib (header, body) = writenodes lib.floats header (some body)

-- One direction of the proxy: whether its ends stand in the sets of descriptors to read from and to
-- write to, the message between them, the bytes that arrive and those that have left.
pub record Side : Type 0 where
  pub reads : Bool
  pub writes : Bool
  pub message : Option Message
  pub incoming : Bytes
  pub outgoing : Bytes

-- What was read is to be written, and what was written makes room (`FD_SWAP`).
abbrev pub was_read : Side → Message → Bytes → Side
was_read side message rest = record {
  reads = false;
  writes = true;
  message = some message;
  incoming = rest;
  outgoing = side.outgoing;
}

abbrev pub was_written : Side → Bytes → Side
was_written side bytes = record side {
  reads = true;
  writes = false;
  outgoing = side.outgoing ++ bytes;
}

-- The proxy in its loop: what comes from the hub, and what comes from the listener.
pub record Proxy : Type 0 where
  pub state : CryptState
  pub hub : Side
  pub listener : Side

-- The descriptors that `select` finds ready, of those in the sets.
pub record Ready : Type 0 where
  pub hub_read : Bool
  pub hub_write : Bool
  pub listener_read : Bool
  pub listener_write : Bool

-- A message that was not read is followed where it is written.
abbrev pub message_of : Side → Call Message
message_of side = or_stop side.message

-- `PROXY_HANDLE_EVENT` from the hub to the listener; the two masks were taken before.
unfoldable pub read_hub : Library → Bool → Proxy → Call Proxy
read_hub lib false p = ok p
read_hub lib true p =
    then_call (hub_recv lib p.state p.hub.incoming)
      (λ (u, message, rest). ok (record p { state = u; hub = was_read p.hub message rest }))

unfoldable pub write_listener : Library → Bool → Proxy → Call Proxy
write_listener lib false p = ok p
write_listener lib true p = then_call (message_of p.hub) (λ message.
    then_call (listener_send lib message)
      (λ bytes. ok (record p { hub = was_written p.hub bytes })))

-- The same from the listener to the hub.
unfoldable pub read_listener : Library → Bool → Proxy → Call Proxy
read_listener lib false p = ok p
read_listener lib true p =
    then_call (listener_recv lib p.listener.incoming)
      (λ (message, rest). ok (record p { listener = was_read p.listener message rest }))

unfoldable pub write_hub : Library → Bool → Proxy → Call Proxy
write_hub lib false p = ok p
write_hub lib true p = then_call (message_of p.listener) (λ message.
    then_call (hub_send lib p.state message)
      (λ (u, bytes). ok (record p { state = u; listener = was_written p.listener bytes })))

-- A round of the loop.
unfoldable pub round : Library → Ready → Proxy → Call Proxy
unfolding read_hub write_listener read_listener write_hub
round lib ready p = then_call (read_hub lib (ready.hub_read && p.hub.reads) p) (λ a.
    then_call (write_listener lib (ready.listener_write && p.hub.writes) a) (λ b.
      then_call (read_listener lib (ready.listener_read && p.listener.reads) b)
        (λ c. write_hub lib (ready.hub_write && p.listener.writes) c)))

-- `Proxy_event_loop` for as many rounds as `select` returns, from the sets that it begins with.
unfoldable pub event_loop : Library → List Ready → Proxy → Call Proxy
unfolding round
event_loop lib [] p = ok p
event_loop lib (ready ∷ rounds) p = then_call (round lib ready p) (λ q. event_loop lib rounds q)

abbrev pub side_start : Bytes → Side
side_start incoming = record {
  reads = true;
  writes = false;
  message = none;
  incoming = incoming;
  outgoing = [];
}

abbrev pub start : CryptState → Bytes → Bytes → Proxy
start s from_hub from_listener = record {
  state = s;
  hub = side_start from_hub;
  listener = side_start from_listener;
}
