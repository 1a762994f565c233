-- ===== src/Peer/Conversation.antt =====
-- Messages one behind the other on one connection.
use utu.Prelude.{
  ℕ, zero, suc, ◌^◌, ◌≡◌, ◌<◌, refl, Option, none, some, List, [], ◌∷◌, ◌++◌, append_assoc, length,
}
use utu.Prelude.Calls.{Call, ok, failed, then_call}
use utu.Stackish.Node.{Bytes, Node}
use utu.Crypto.{CryptState, Library}
use utu.Crypto.Delivery.{IsSealing, IsSendable, opened_once}
use utu.Peer.{peer_recv, peer_send}
use utu.Peer.Delivery.{InStep, peer_recv-peer_send}

-- `Peer_send` of a header and a payload after another: the state at the end and all the bytes.
pub data Sends (lib : Library) : CryptState → List (Node × Node) → Bytes → CryptState → Type 0 where
  nothing_sent : {s : CryptState} → Sends lib s [] [] s
  sent :
      {s u v : CryptState} {header payload : Node} {bytes rest : Bytes} {more : List (Node × Node)}
      → IsSendable lib header
      → IsSendable lib payload
      → peer_send lib s header payload ≡ ok (u, bytes)
      → length bytes < 2 ^ 16
      → Sends lib u more rest v
      → Sends lib s ((header, payload) ∷ more) (bytes ++ rest) v

-- The header and the message that `Peer_recv` gives.
abbrev pub received : (Option Node × Node) → Call (Node × Node)
received (none, msg) = failed
received (some header, msg) = ok (header, msg)

-- `Peer_recv` some times, with the bytes that are left.
unfoldable pub recv_all :
    Library → ℕ → CryptState → Bytes → Call (CryptState × List (Node × Node) × Bytes)
recv_all lib zero r bytes = ok (r, [], bytes)
recv_all lib (suc n) r bytes = then_call (peer_recv lib r bytes) (λ (u, header, msg, rest).
    then_call (received (header, msg)) (λ packet.
      then_call (recv_all lib n u rest) (λ (v, packets, left). ok (v, packet ∷ packets, left))))

abbrev count : List (Node × Node) → ℕ
count [] = zero
count (_ ∷ ms) = suc (count ms)

-- What one peer sends with Peer_send, message after message, the other receives with Peer_recv: the
-- same headers and payloads in the same order, with the bytes that follow left. The keys and the
-- nonces are in step at the start, and are in step at the end. The primitives open what they have
-- sealed; every message can be printed and read back and makes a frame shorter than 2 ^ 16 bytes.
pub recv_all-Sends :
    (lib : Library) (s v r : CryptState) (packets : List (Node × Node)) (bytes more : Bytes)
    → IsSealing lib.primitives
    → 2 < lib.fuel
    → InStep s r
    → Sends lib s packets bytes v
    → (u : CryptState) × (recv_all lib (count packets) r (bytes ++ more) ≡ ok (u, packets, more))
      × InStep v u
unfolding recv_all
recv_all-Sends lib s v r packets bytes more law f i nothing_sent = (r, refl, i)
recv_all-Sends lib s v r packets bytes more law f i
      (sent {u = u} {header = header} {payload = payload} {bytes = first} {rest = rest}
        {more = others} hh hp e l tail) =
    let (here, next) =
      peer_recv-peer_send lib s r u header payload first (rest ++ more) law f hh hp i e l in
    let (w, all, last) = recv_all-Sends lib u v (opened_once r) others rest more law f next tail in
    (w, rw (append_assoc first rest more, here, all) refl, last)
