-- ===== src/Peer/Broken.antt =====
-- Handshakes that end early.
use utu.Prelude.{codes, ◌≡◌, refl, sym, ap, ◌∙◌, Bool, true, Option, [], ◌++◌}
use utu.Prelude.Calls.{ok, then_call-ok, of_option, ok-injective}
use utu.Stackish.Node.{Bytes, Node}
use utu.Frame.{recv, send}
use utu.Crypto.{CryptState, Library, Nonce}
use utu.Crypto.Packet.{of_built, encrypt_node}
use utu.Crypto.Exchange.{empty_header}
use utu.Crypto.Delivery.{encrypt_node-Sealing, sealed_once}
use utu.Crypto.Receiver.{receiver_send_final, with_nonce, answer_args}
use utu.Stackish.Cons.{node_cons}
use utu.Peer.{ended, receiver_final}

-- The hub's last step leaves the session keys as they are.
receiver_send_final-skey :
    (lib : Library) (second : Option Nonce) (s u : CryptState) (header : Bytes) (rmsg : Node)
    → receiver_send_final lib second s ≡ ok (u, header, rmsg)
    → (u.me.skey ≡ s.me.skey) × (u.them.skey ≡ s.them.skey)
unfolding receiver_send_final
receiver_send_final-skey lib second s u header rmsg e =
    let (nonce, a, e1) = then_call-ok (of_option second) _ (u, header, rmsg) e in
    let (payload, b, e2) =
      then_call-ok (of_built (node_cons (codes "[sbnnnnw") (answer_args (with_nonce s nonce)))) _
        (u, header, rmsg) e1 in
    let ((v, msg), c, e3) =
      then_call-ok (encrypt_node lib (with_nonce s nonce) s.shared empty_header payload) _
        (u, header, rmsg) e2 in
    let made =
      encrypt_node-Sealing lib (with_nonce s nonce) v s.shared empty_header payload msg c in
    let same = ok-injective (v, empty_header, msg) (u, header, rmsg) e3 in
    let state : u ≡ sealed_once (with_nonce s nonce) = sym (ap (λ x. x.0) same) ∙ made.5 in
    (ap (λ x. x.me.skey) state, ap (λ x. x.them.skey) state)

-- Once the hub has sent its answer, Peer_establish_receiver returns 1 where the connection closes
-- without the initiator's final message, with the session keys as they were before.
pub receiver_final-closed :
    (lib : Library) (second : Option Nonce) (rc : Bool) (s u : CryptState)
    (sent header bytes : Bytes) (rmsg : Node)
    → receiver_send_final lib second s ≡ ok (u, header, rmsg)
    → send lib.space lib.floats header rmsg ≡ ok bytes
    → (receiver_final lib second rc s sent [] ≡ ended true u (sent ++ bytes) [])
      × (u.me.skey ≡ s.me.skey)
      × (u.them.skey ≡ s.them.skey)
unfolding receiver_final recv
receiver_final-closed lib second rc s u sent header bytes rmsg e h =
    let (mine, theirs) = receiver_send_final-skey lib second s u header rmsg e in
    (rw (e, h) refl, mine, theirs)
