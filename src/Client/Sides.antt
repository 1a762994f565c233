-- ===== src/Client/Sides.antt =====
-- Reading from the hub leaves the keys of the hub as they are, and writing to it those of the client:
-- src/client/proxy.c with src/protocol/crypto.c.
use utu.Prelude.{
  ℕ, ◌≡◌, refl, sym, ap, ◌∙◌, subst, Bool, true, false, some, List, [], ◌∷◌, ◌==◌, length,
  if◌then◌else◌, codes,
}
use utu.Prelude.Calls.{Call, ok, failed, stopped, then_call, then_call-ok, or_stop, ok-injective}
use utu.Stackish.Node.{Bytes, Node}
use utu.Stackish.Print.{bstr}
use utu.Stackish.Sequence.{parse}
use utu.Stackish.Decons.{Parts, Out, parts, refused, node_decons, same_bytes}
use utu.Stackish.Decons
use utu.Crypto.{CryptState, Library, Opened, opened, spoiled}
use utu.Crypto.Packet.{
  encrypt_node, decrypt_node, decrypt_packet, open_text, unopened, tag_and_text, of_outcome,
}
use utu.Crypto.Delivery.{encrypt_node-Sealing}
use utu.Client.{readnodes, write_header_node}
use utu.Client.Proxy.{Message, both, hub_recv, hub_send}

-- A call that leaves the other side's keys.
abbrev KeepsThem : CryptState → Call (CryptState × Bytes) → Type 0
KeepsThem s (ok (u, t)) = u.them ≡ s.them
KeepsThem s _ = Unit {0}

open_text-KeepsThem :
    (lib : Library) (s : CryptState) (key : ℕ) (header tag text : Bytes)
    → KeepsThem s (open_text lib s key header tag text)
unfolding open_text
open_text-KeepsThem lib s key header tag text =
    at (lib.primitives.unseal key s.me.nonce header text)
  where
    same :
        (b : Bool) (u : CryptState) (t : Bytes)
        → u.them ≡ s.them
        → KeepsThem s (if b then ok (u, t) else failed)
    same true u t e = e
    same false u t e = tt

    at :
        (o : Opened)
        → KeepsThem s (elim o [
          | spoiled left ↦ ok (s, left)
          | opened payload t ↦
              if same_bytes t tag
              then ok (
                record s { me = record s.me { nonce = utu.Crypto.nonce_inc s.me.nonce } },
                payload,
              )
              else failed
        ])
    at (spoiled left) = refl
    at (opened payload t) = same (same_bytes t tag) _ payload refl

unopened-KeepsThem : (s : CryptState) (out : List Out) → KeepsThem s (unopened s out)
unopened-KeepsThem s (Out.binary tag ∷ Out.binary (some text) ∷ []) = refl
unopened-KeepsThem s _ = tt

decrypt_packet-KeepsThem :
    (lib : Library) (s : CryptState) (key : ℕ) (header : Bytes) (packet : Node)
    → KeepsThem s (decrypt_packet lib s key header packet)
unfolding decrypt_packet
decrypt_packet-KeepsThem lib s key header packet =
    at (node_decons packet (codes "[bbw") (codes "env" ∷ []))
  where
    opening :
        (c : Call (Bytes × Bytes))
        → KeepsThem s (then_call c (λ (rectag, text). open_text lib s key header rectag text))
    opening (ok (tag, text)) = open_text-KeepsThem lib s key header tag text
    opening failed = tt
    opening stopped = tt

    at :
        (p : Parts)
        → KeepsThem s (elim p [
          | Decons.crashed ↦ stopped
          | refused out ↦ unopened s out
          | parts out ↦
              then_call
                (tag_and_text out)
                (λ (rectag, text). open_text lib s key header rectag text)
        ])
    at Decons.crashed = tt
    at (refused out) = unopened-KeepsThem s out
    at (parts out) = opening (tag_and_text out)

decrypt_node-them :
    (lib : Library) (s u : CryptState) (key : ℕ) (header : Bytes) (packet n : Node)
    → decrypt_node lib s key header packet ≡ ok (u, n)
    → u.them ≡ s.them
unfolding decrypt_node
decrypt_node-them lib s u key header packet n e =
    let ((v, text), a, b) = then_call-ok (decrypt_packet lib s key header packet) _ (u, n) e in
    let kept = subst (KeepsThem s) a (decrypt_packet-KeepsThem lib s key header packet) in
    ap (λ x. x.them)
      (sym (same_state (length text == 0) (of_outcome (parse lib.fuel lib.floats text)) v u n b))
    ∙ kept
  where
    same_state :
        (z : Bool) (c : Call Node) (v u : CryptState) (n : Node)
        → if◌then◌else◌ {A = Call (CryptState × Node)} z failed (then_call c (λ m. ok (v, m)))
          ≡ ok (u, n)
        → v ≡ u
    same_state true c v u n e = cc
    same_state false (ok m) v u n e = ap (λ x. x.0) (ok-injective (v, m) (u, n) e)
    same_state false failed v u n e = cc
    same_state false stopped v u n e = cc

pub hub_recv-them :
    (lib : Library) (s u : CryptState) (incoming rest : Bytes) (m : Message)
    → hub_recv lib s incoming ≡ ok (u, m, rest)
    → u.them ≡ s.them
unfolding hub_recv
hub_recv-them lib s u incoming rest m e =
    let (r, a, b) = then_call-ok (readnodes lib.fuel lib.floats incoming) _ (u, m, rest) e in
    let (((header, packet), left), c, d) = then_call-ok (both r) _ (u, m, rest) b in
    let (hdata, f, g) = then_call-ok (or_stop (bstr lib.floats header)) _ (u, m, rest) d in
    let ((v, msg), h, k) =
      then_call-ok (decrypt_node lib s s.me.skey hdata packet) _ (u, m, rest) g in
    ap (λ x. x.0.them) (sym (ok-injective (v, (header, msg), left) (u, m, rest) k))
    ∙ decrypt_node-them lib s v s.me.skey hdata packet msg h

pub hub_send-me :
    (lib : Library) (s u : CryptState) (m : Message) (bytes : Bytes)
    → hub_send lib s m ≡ ok (u, bytes)
    → u.me ≡ s.me
unfolding hub_send
hub_send-me lib s u (header, body) bytes e =
    let (hdata, a, b) = then_call-ok (or_stop (bstr lib.floats header)) _ (u, bytes) e in
    let ((v, msg), c, d) =
      then_call-ok (encrypt_node lib s s.them.skey hdata body) _ (u, bytes) b in
    let (left, f, g) =
      then_call-ok (write_header_node lib.floats hdata (some msg)) _ (u, bytes) d in
    let sealing = encrypt_node-Sealing lib s v s.them.skey hdata body msg c in
    ap (λ x. x.0.me) (sym (ok-injective (v, left) (u, bytes) g)) ∙ ap (λ x. x.me) sealing.5
