-- ===== src/Client/Delivery.antt =====
-- The proxy of src/client/proxy.c and the hub's side of a connection, src/protocol/peer.c.
use utu.Prelude.{
  ℕ, ◌+◌, ◌*◌, ◌/◌, ◌%◌, ◌^◌, ◌≡◌, ◌<◌, refl, sym, ap, ◌∙◌, subst, true, false, some, ◌∷◌, ◌++◌,
  ◌==◌, length, length-append, take-append, drop-append, arith,
}
use utu.Prelude.Calls.{ok, stopped}
use utu.Stackish.Node.{Bytes, Node}
use utu.Frame.Delivery.{framed, both_parsed, bstr-pos}
use utu.Crypto.{CryptState, Library, nonce_inc}
use utu.Crypto.Packet.{decrypt_node}
use utu.Crypto.Delivery.{
  IsSealing, IsSendable, opened_once, decrypt_node-encrypt_node, encrypt_node-IsSendable,
}
use utu.Peer.{peer_send}
use utu.Peer.Delivery.{InStep, peer_send-Parts}
use utu.Client.{readn, readframe, readnodes, parse_nodes}
use utu.Client.Proxy.{Proxy, Ready, hub_recv, read_hub, round}

readframe-framed :
    (bytes more : Bytes)
    → 0 < length bytes
    → readframe (framed bytes ++ more) ≡ ok (some bytes, more)
unfolding readframe readn
readframe-framed bytes more p =
    rw
      (
        readframe,
        readn,
        whole (length bytes),
        is_zero,
        take-append bytes more,
        drop-append bytes more,
        same (length bytes),
      )
      refl
  where
    whole : (n : ℕ) → n / 256 * 256 + n % 256 ≡ n
    whole n = omega arith

    is_zero : (length bytes == 0) ≡ false
    is_zero = ground arith

    same : (n : ℕ) → (n == n) ≡ true
    same n = ground arith

-- What the hub sends with Peer_send, the proxy receives: Proxy_hub_recv gives the same header and
-- payload and leaves the bytes that follow. The keys and the nonces are in step before and after. The
-- primitives open what they have sealed; header and payload can be printed and read back, and the
-- frame is shorter than 2 ^ 16 bytes.
pub hub_recv-peer_send :
    (lib : Library) (s r u : CryptState) (header payload : Node) (bytes more : Bytes)
    → IsSealing lib.primitives
    → 2 < lib.fuel
    → IsSendable lib header
    → IsSendable lib payload
    → InStep s r
    → peer_send lib s header payload ≡ ok (u, bytes)
    → length bytes < 2 ^ 16
    → (hub_recv lib r (bytes ++ more) ≡ ok (opened_once r, (header, payload), more))
      × InStep u (opened_once r)
unfolding hub_recv readnodes parse_nodes
hub_recv-peer_send lib s r u header payload bytes more law f hh hp i e l =
    let (ht, msg, bt, b, c, d, shape, fits) = peer_send-Parts lib s u header payload bytes e l in
    let short : length bt < 2 ^ 63 = omega (arith, length-append ht bt) in
    let envelope = encrypt_node-IsSendable lib s u s.them.skey ht payload msg bt f c d short in
    let opened =
      decrypt_node-encrypt_node lib s r u s.them.skey ht payload msg bt law hp i.0 c d short in
    let trees =
      both_parsed lib.fuel lib.floats header msg ht bt hh.0 envelope.0 hh.1 envelope.1 b d fits in
    let frame =
      ap (λ x. readframe (x ++ more)) shape
      ∙ readframe-framed (ht ++ bt) more
          (omega (arith, length-append ht bt, bstr-pos lib.floats msg bt d)) in
    (
      rw
          (
            hub_recv,
            readnodes,
            frame,
            parse_nodes,
            trees.0,
            trees.1,
            b,
            subst (λ k. decrypt_node lib r k ht msg ≡ ok (opened_once r, payload)) (sym i.1)
                opened.0,
          )
          refl,
      subst (λ x. InStep x (opened_once r)) (sym opened.1) (ap nonce_inc i.0, i.1),
    )

-- A frame of no bytes stops the client: where the hub's socket is ready, the proxy waits for a message
-- of the hub and what comes begins with a length of 0, the round of the loop ends at an assertion.
pub round-empty :
    (lib : Library) (ready : Ready) (p : Proxy) (rest : Bytes)
    → ready.hub_read ≡ true
    → p.hub.reads ≡ true
    → p.hub.incoming ≡ 0 ∷ 0 ∷ rest
    → round lib ready p ≡ stopped
unfolding round read_hub hub_recv readnodes readframe readn
round-empty lib ready p rest a b c = rw (round, a, b, read_hub, hub_recv, c) refl
