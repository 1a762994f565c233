-- ===== src/Peer.antt =====
-- Peers of src/protocol/peer.c: the two sides of the handshake, and messages under the session keys.
-- What leaves is sent; a socket that breaks is seen by the next read.
pub mod Broken
pub mod Delivery
pub mod Conversation
pub mod Forged
use utu.Prelude.{ℕ, Bool, true, false, Option, none, some, List, [], ◌∷◌, ◌++◌, if◌then◌else◌}
use utu.Prelude.Calls.{Call, ok, failed, stopped, then_call, or_stop}
use utu.Stackish.Node.{Bytes, Node}
use utu.Stackish.Print.{bstr}
use utu.Frame.{Received, recv, send}
use utu.Crypto.{CryptState, Library, Nonce}
use utu.Crypto.Packet.{encrypt_node, decrypt_node}
use utu.Crypto.Receiver.{
  receiver_start, receiver_process_response, receiver_send_final, receiver_done,
}
use utu.Crypto.Initiator.{initiator_start, initiator_process_response, initiator_send_final}

-- How a handshake ends: what the function returns, the state (that before the call that failed),
-- all bytes sent, and the bytes not read.
pub record Ended : Type 0 where
  pub rc : Bool
  pub state : CryptState
  pub sent : Bytes
  pub rest : Bytes

abbrev pub ended : Bool → CryptState → Bytes → Bytes → Call Ended
ended rc s sent rest = ok (record { rc = rc; state = s; sent = sent; rest = rest })

-- A call whose failure ends the function with a given value.
abbrev pub or_else : {A : Type 0} → Call A → Call Ended → (A → Call Ended) → Call Ended
or_else (ok a) d k = k a
or_else failed d k = d
or_else stopped d k = stopped

-- A null pointer is an assertion of the callee.
abbrev pub must : {A : Type 0} → Call A → (A → Call Ended) → Call Ended
must (ok a) k = k a
must failed k = stopped
must stopped k = stopped

-- The bytes and the body of a frame that has both.
abbrev pub body_of : Received → Option (Bytes × Node)
body_of r = elim r.hbuf [
  | none ↦ none
  | some hbuf ↦ elim r.msg [ none ↦ none | some msg ↦ some (hbuf, msg) ]
]

abbrev pub or_none : {A : Type 0} → Option A → Call Ended → (A → Call Ended) → Call Ended
or_none none d k = d
or_none (some a) d k = k a

-- A call whose value is assigned to `rc`: the `check` that follows ends the function with it.
abbrev pub assign :
    {A : Type 0} → Call A → (Bool → Call Ended) → (Bool → A → Call Ended) → Call Ended
assign (ok a) d k = k true a
assign failed d k = d false
assign stopped d k = stopped

-- From the first answer on, with the `rc` of the call before.
unfoldable pub receiver_final :
    Library → Option Nonce → Bool → CryptState → Bytes → Bytes → Call Ended
receiver_final lib drawn rc s sent incoming =
    or_else (receiver_send_final lib drawn s) (ended rc s sent incoming) (λ (u, header, rmsg).
      assign (send lib.space lib.floats header rmsg) (λ rc. ended rc u sent incoming)
        (λ rc bytes. must (recv lib.fuel lib.floats incoming) (λ r.
          or_none (body_of r) (ended rc u (sent ++ bytes) r.rest) (λ (hbuf, imsg).
            assign (receiver_done lib hbuf imsg u) (λ rc. ended rc u (sent ++ bytes) r.rest)
              (λ rc v. ended rc v (sent ++ bytes) r.rest)))))

-- `Peer_establish_receiver`, with the two nonces that it draws and the bytes that will arrive.
unfoldable pub establish_receiver :
    Library → (CryptState → Bool) → Option Nonce → Option Nonce → CryptState → Bytes → Call Ended
unfolding receiver_final
establish_receiver lib key_confirm first second s incoming =
    must (receiver_start lib first s) (λ (u, rmsg).
      assign (send lib.space lib.floats [] rmsg) (λ rc. ended rc u [] incoming)
        (λ rc sent. must (recv lib.fuel lib.floats incoming) (λ r.
          or_none (body_of r) (ended false u sent r.rest) (λ (hbuf, imsg).
            assign (receiver_process_response lib key_confirm hbuf imsg u)
              (λ rc. ended rc u sent r.rest)
              (λ rc v. receiver_final lib second rc v sent r.rest)))))

-- The header of a frame that has no body.
abbrev pub header_alone : Received → Option Node
header_alone r = elim r.msg [ none ↦ r.header | some _ ↦ none ]

-- From the receiver's answer on, with the `rc` of the call before.
unfoldable pub initiator_final : Library → Bool → CryptState → Bytes → Bytes → Call Ended
initiator_final lib rc s sent incoming = must (recv lib.fuel lib.floats incoming) (λ r.
    or_none (body_of r) (ended rc s sent r.rest) (λ (hbuf, rmsg).
      assign (initiator_process_response lib hbuf rmsg s) (λ rc. ended rc s sent r.rest)
        (λ rc u. or_else (initiator_send_final lib u) (ended rc u sent r.rest) (λ (v, header, imsg).
          assign (send lib.space lib.floats header imsg) (λ rc. ended rc v sent r.rest)
            (λ rc bytes. ended rc v (sent ++ bytes) r.rest)))))

-- `Peer_establish_initiator`, with the nonce that it draws and the bytes that will arrive.
unfoldable pub establish_initiator :
    Library → (CryptState → Bool) → Option Nonce → CryptState → Bytes → Call Ended
unfolding initiator_final
establish_initiator lib key_confirm drawn s incoming =
    let rc = false in
    must (recv lib.fuel lib.floats incoming) (λ r.
      or_none (header_alone r) (ended rc s [] r.rest) (λ rhdr.
        or_else (initiator_start lib key_confirm drawn rhdr s) (ended rc s [] r.rest)
          (λ (u, header, imsg).
            assign (send lib.space lib.floats header imsg) (λ rc. ended rc u [] r.rest)
              (λ rc sent. initiator_final lib rc u sent r.rest))))

-- `Peer_recv`: the state, the header, the message, and the bytes not read. Nothing is returned where
-- no packet arrives or it cannot be decrypted.
unfoldable pub peer_recv :
    Library → CryptState → Bytes → Call (CryptState × Option Node × Node × Bytes)
peer_recv lib s incoming = then_call (recv lib.fuel lib.floats incoming) (λ r. elim (body_of r) [
  | none ↦ failed
  | some packet ↦
      then_call (decrypt_node lib s s.me.skey packet.0 packet.1)
        (λ (u, msg). ok (u, r.header, msg, r.rest))
])

-- `Peer_send`: the state and the bytes that leave.
unfoldable pub peer_send : Library → CryptState → Node → Node → Call (CryptState × Bytes)
peer_send lib s header payload = then_call (or_stop (bstr lib.floats header)) (λ hbuf.
    then_call (encrypt_node lib s s.them.skey hbuf payload)
      (λ (u, msg). then_call (send lib.space lib.floats hbuf msg) (λ bytes. ok (u, bytes))))
