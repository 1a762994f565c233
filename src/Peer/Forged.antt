-- ===== src/Peer/Forged.antt =====
-- A message from someone who has no key.
use utu.Prelude.{
  ◌^◌, ◌≡◌, ◌<◌, refl, sym, some, some-injective, [], ◌∷◌, ◌++◌, length, length-append, codes,
  arith,
}
use utu.Prelude.Calls.{ok}
use utu.Stackish.Node.{Bytes, Node, nil, cons}
use utu.Stackish.Print.{bstr, catbstr, value_text}
use utu.Stackish.Text.{IsWord, blob_count}
use utu.Frame.Delivery.{framed, recv-both}
use utu.Crypto.{CryptState, Library}
use utu.Crypto.Delivery.{IsSendable}
use utu.Crypto.Forged.{packet_of, decrypt_node-forged}
use utu.Peer.{peer_recv}

-- A packet named "raw" with an empty tag.
abbrev pub raw : Bytes → Node
raw text = packet_of (codes "raw") [] text

length-raw :
    (lib : Library) (text t : Bytes) → bstr lib.floats (raw text) ≡ some t → length text < length t
unfolding bstr catbstr value_text
length-raw lib text t e =
    let h = some-injective t _ (sym e) in simp (h, length-append) (grind arith)

raw-IsSendable :
    (lib : Library) (text : Bytes) → 2 < lib.fuel → length text < 2 ^ 63 → IsSendable lib (raw text)
raw-IsSendable lib text f l = ((raw_word, (tt, omega arith, tt, (tt, l, tt, tt))), one_blob text)
  where
    raw_word : IsWord (codes "raw")
    raw_word = (omega arith, refl, ((omega arith, refl), ((omega arith, refl), tt)))

    one_blob : (t : Bytes) → blob_count (cons (raw t) nil) < lib.fuel
    one_blob [] = omega arith
    one_blob (_ ∷ _) = omega arith

-- Peer_recv returns any message that stands unencrypted in a packet named "raw", whatever the keys
-- and the nonces of the peer are, and leaves them as they are, so that the same bytes are accepted
-- again. The header and the message are such as can be printed and read back, and the frame is
-- shorter than 2 ^ 16 bytes.
pub peer_recv-forged :
    (lib : Library) (r : CryptState) (header payload : Node) (ht text bt more : Bytes)
    → 2 < lib.fuel
    → IsSendable lib header
    → IsSendable lib payload
    → bstr lib.floats header ≡ some ht
    → bstr lib.floats payload ≡ some text
    → bstr lib.floats (raw text) ≡ some bt
    → length (ht ++ bt) < 2 ^ 16
    → peer_recv lib r (framed (ht ++ bt) ++ more) ≡ ok (r, some header, payload, more)
unfolding peer_recv
peer_recv-forged lib r header payload ht text bt more f hh hp eh ep eb l =
    let short = length-raw lib text bt eb in
    let packet = raw-IsSendable lib text f (omega (arith, length-append ht bt)) in
    let clear =
      decrypt_node-forged lib r r.me.skey ht (codes "raw") [] text payload refl hp ep
        (omega (arith, length-append ht bt)) in
    rw
      (
        recv-both lib.fuel lib.floats header (raw text) ht bt more hh.0 packet.0 hh.1 packet.1 eh eb
            l,
        clear,
      )
      refl
