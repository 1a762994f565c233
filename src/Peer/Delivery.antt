-- ===== src/Peer/Delivery.antt =====
-- Messages between two peers that share session keys.
use utu.Prelude.{◌^◌, ◌≡◌, ◌<◌, refl, sym, ap, ◌∙◌, subst, some, ◌++◌, length, length-append, arith}
use utu.Prelude.Calls.{ok, then_call-ok, ok-injective, or_stop, or_stop-ok}
use utu.Stackish.Node.{Bytes, Node}
use utu.Stackish.Print.{bstr}
use utu.Frame.{recv, send}
use utu.Frame.Delivery.{framed, send-framed, recv-both}
use utu.Crypto.{CryptState, Library, nonce_inc}
use utu.Crypto.Packet.{encrypt_node, decrypt_node}
use utu.Crypto.Delivery.{
  IsSealing, IsSendable, opened_once, decrypt_node-encrypt_node, encrypt_node-IsSendable,
}
use utu.Peer.{peer_recv, peer_send}

-- What one side sends, the other can open: its nonce and its session key are the sender's.
abbrev pub InStep : CryptState → CryptState → Type 0
InStep s r = (r.me.nonce ≡ s.them.nonce) × (r.me.skey ≡ s.them.skey)

-- The parts of what was sent.
abbrev pub Parts : Library → CryptState → Node → Node → CryptState → Bytes → Type 0
Parts lib s header payload u bytes =
    (ht : Bytes) × (msg : Node) × (bt : Bytes) × (bstr lib.floats header ≡ some ht)
    × (encrypt_node lib s s.them.skey ht payload ≡ ok (u, msg))
    × (bstr lib.floats msg ≡ some bt)
    × (bytes ≡ framed (ht ++ bt))
    × (length (ht ++ bt) < 2 ^ 16)

pub peer_send-Parts :
    (lib : Library) (s u : CryptState) (header payload : Node) (bytes : Bytes)
    → peer_send lib s header payload ≡ ok (u, bytes)
    → length bytes < 2 ^ 16
    → Parts lib s header payload u bytes
unfolding peer_send
peer_send-Parts lib s u header payload bytes e l =
    let (ht, b, h) = then_call-ok (or_stop (bstr lib.floats header)) _ (u, bytes) e in
    let ((v, msg), c, g) =
      then_call-ok (encrypt_node lib s s.them.skey ht payload) _ (u, bytes) h in
    let (out, d, k) = then_call-ok (send lib.space lib.floats ht msg) _ (u, bytes) g in
    let pair = ok-injective (v, out) (u, bytes) k in
    let (bt, f, shape, fits) =
      send-framed lib.space lib.floats ht msg bytes (d ∙ ap (λ p. ok p) (ap (λ x. x.1) pair)) l in
    (
      ht,
      msg,
      bt,
      or_stop-ok (bstr lib.floats header) ht b,
      c ∙ ap (λ x. ok (x.0, msg)) pair,
      f,
      shape,
      fits,
    )

-- A message that was sent is received, and the two sides stay in step.
pub peer_recv-peer_send :
    (lib : Library) (s r u : CryptState) (header payload : Node) (bytes more : Bytes)
    → IsSealing lib.primitives
    → 2 < lib.fuel
    → IsSendable lib header
    → IsSendable lib payload
    → InStep s r
    → peer_send lib s header payload ≡ ok (u, bytes)
    → length bytes < 2 ^ 16
    → (peer_recv lib r (bytes ++ more) ≡ ok (opened_once r, some header, payload, more))
      × InStep u (opened_once r)
unfolding peer_recv
peer_recv-peer_send lib s r u header payload bytes more law f hh hp i e l =
    let (ht, msg, bt, b, c, d, shape, fits) = peer_send-Parts lib s u header payload bytes e l in
    let short : length bt < 2 ^ 63 = omega (arith, length-append ht bt) in
    let envelope = encrypt_node-IsSendable lib s u s.them.skey ht payload msg bt f c d short in
    let opened =
      decrypt_node-encrypt_node lib s r u s.them.skey ht payload msg bt law hp i.0 c d short in
    let framed_up =
      ap (λ x. recv lib.fuel lib.floats (x ++ more)) shape
      ∙ recv-both lib.fuel lib.floats header msg ht bt more hh.0 envelope.0 hh.1 envelope.1 b d
          fits in
    (
      rw
          (
            framed_up,
            subst (λ k. decrypt_node lib r k ht msg ≡ ok (opened_once r, payload)) (sym i.1)
                opened.0,
          )
          refl,
      subst (λ x. InStep x (opened_once r)) (sym opened.1) (ap nonce_inc i.0, i.1),
    )
