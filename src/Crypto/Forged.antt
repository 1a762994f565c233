-- ===== src/Crypto/Forged.antt =====
-- Packets that nobody has sealed.
use utu.Prelude.{ℕ, ◌^◌, ◌≡◌, ◌<◌, refl, false, none, some, length, codes}
use utu.Prelude.Calls.{ok}
use utu.Stackish.Node.{Bytes, Node, node, nil, cons, group, blob}
use utu.Stackish.Print.{bstr}
use utu.Stackish.Decons.{node_decons, take_apart, same_bytes}
use utu.Stackish.Decons
use utu.Crypto.{CryptState, Library}
use utu.Crypto.Packet.{decrypt_packet, decrypt_node}
use utu.Crypto.Delivery.{IsSendable, decrypt_node_lem}

-- A packet of two blobs under a name, the text first where it is printed.
abbrev pub packet_of : Bytes → Bytes → Bytes → Node
packet_of name tag text =
    node (some name) group
      (cons (node none (blob (some tag)) nil) (cons (node none (blob (some text)) nil) nil))

decrypt_packet-forged :
    (lib : Library) (r : CryptState) (key : ℕ) (header name tag text : Bytes)
    → same_bytes name (codes "env") ≡ false
    → decrypt_packet lib r key header (packet_of name tag text) ≡ ok (r, text)
unfolding decrypt_packet node_decons take_apart Decons.step
decrypt_packet-forged lib r key header name tag text e = rw (decrypt_packet, e) refl

-- CryptState_decrypt_node takes a packet of two blobs under any name but "env" for one that it has
-- decrypted: for every key, header and tag it returns the tree whose printed text the packet holds,
-- and leaves the nonce as it is. The tree is one that can be printed and read back.
pub decrypt_node-forged :
    (lib : Library) (r : CryptState) (key : ℕ) (header name tag text : Bytes) (payload : Node)
    → same_bytes name (codes "env") ≡ false
    → IsSendable lib payload
    → bstr lib.floats payload ≡ some text
    → length text < 2 ^ 64
    → decrypt_node lib r key header (packet_of name tag text) ≡ ok (r, payload)
decrypt_node-forged lib r key header name tag text payload e h b l =
    decrypt_node_lem lib r r key header (packet_of name tag text) payload text h l b
      (decrypt_packet-forged lib r key header name tag text e)
