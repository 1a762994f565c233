-- ===== src/Crypto/Delivery.antt =====
-- Packets that are sealed and opened.
use utu.Prelude.{
  ℕ, ◌^◌, ◌≡◌, ◌≤◌, ◌<◌, refl, sym, ap, ◌∙◌, subst, true, false, none, some, some-injective,
  length-append, [], ◌∷◌, ◌==◌, length, arith, codes,
}
use utu.Prelude.Calls.{ok, of_option, then_call-ok, of_option-ok, ok-injective, or_stop, or_stop-ok}
use utu.Stackish.Node.{Bytes, Node, node, nil, cons, group, blob}
use utu.Stackish.Print.{bstr, catbstr, value_text}
use utu.Frame.Delivery.{bstr-pos}
use utu.Stackish.Text.{IsReadableRoot, IsWord, blob_count}
use utu.Stackish.RoundTrip.{parse-bstr}
use utu.Stackish.Cons.{node_cons, build, step, take_arg}
use utu.Stackish.Cons
use utu.Stackish.Decons.{node_decons, take_apart, same_bytes}
use utu.Stackish.Decons
use utu.Crypto.{CryptState, Primitives, Library, Nonce, opened, nonce_inc}
use utu.Crypto.Packet.{encrypt_packet, encrypt_node, open_text, decrypt_packet, decrypt_node}

-- What the documentation of the primitives promises: opening gives back what was sealed, with the
-- same tag; the sealed text has the length of the text, and a tag has at most sixteen bytes.
pub record IsSealing (p : Primitives) : Type 0 where
  pub opens :
      (key : ℕ) (nonce : Nonce) (header text sealed tag : Bytes)
      → p.seal key nonce header text ≡ some (sealed, tag)
      → p.unseal key nonce header sealed ≡ opened text tag
  pub sizes :
      (key : ℕ) (nonce : Nonce) (header text sealed tag : Bytes)
      → p.seal key nonce header text ≡ some (sealed, tag)
      → (length sealed ≡ length text) × (length tag ≤ 16)

abbrev pub envelope : Bytes → Bytes → Node
envelope sealed tag =
    node (some (codes "env")) group
      (cons (node none (blob (some tag)) nil) (cons (node none (blob (some sealed)) nil) nil))

-- The state behind a packet that was sealed, and behind one that was opened.
abbrev pub sealed_once : CryptState → CryptState
sealed_once s = record s { them = record s.them { nonce = nonce_inc s.them.nonce } }

abbrev pub opened_once : CryptState → CryptState
opened_once s = record s { me = record s.me { nonce = nonce_inc s.me.nonce } }

pub same_bytes_refl : (t : Bytes) → same_bytes t t ≡ true
same_bytes_refl [] = refl
same_bytes_refl (c ∷ t) = rw (same_bytes_refl t) (ground arith)

encrypt_packet_lem :
    (lib : Library) (s : CryptState) (key : ℕ) (header text sealed tag : Bytes)
    → lib.primitives.seal key s.them.nonce header text ≡ some (sealed, tag)
    → encrypt_packet lib s key header text ≡ ok (sealed_once s, envelope sealed tag)
unfolding encrypt_packet node_cons build Cons.step take_arg
encrypt_packet_lem lib s key header text sealed tag e = rw e refl

open_text_lem :
    (lib : Library) (s : CryptState) (key : ℕ) (header text sealed tag : Bytes)
    → lib.primitives.unseal key s.me.nonce header sealed ≡ opened text tag
    → open_text lib s key header tag sealed ≡ ok (opened_once s, text)
unfolding open_text
open_text_lem lib s key header text sealed tag e = rw (open_text, e, same_bytes_refl tag) refl

decrypt_packet_lem :
    (lib : Library) (s : CryptState) (key : ℕ) (header text sealed tag : Bytes)
    → lib.primitives.unseal key s.me.nonce header sealed ≡ opened text tag
    → decrypt_packet lib s key header (envelope sealed tag) ≡ ok (opened_once s, text)
unfolding decrypt_packet node_decons take_apart Decons.step
decrypt_packet_lem lib s key header text sealed tag e =
    open_text_lem lib s key header text sealed tag e

-- What a packet of a tree was made of.
abbrev pub Sealing : Library → CryptState → ℕ → Bytes → Node → CryptState → Node → Type 0
Sealing lib s key header payload u msg =
    (text : Bytes) × (sealed : Bytes) × (tag : Bytes) × (bstr lib.floats payload ≡ some text)
    × (lib.primitives.seal key s.them.nonce header text ≡ some (sealed, tag))
    × (u ≡ sealed_once s)
    × (msg ≡ envelope sealed tag)

pub encrypt_node-Sealing :
    (lib : Library) (s u : CryptState) (key : ℕ) (header : Bytes) (payload msg : Node)
    → encrypt_node lib s key header payload ≡ ok (u, msg)
    → Sealing lib s key header payload u msg
unfolding encrypt_node encrypt_packet node_cons build Cons.step take_arg
encrypt_node-Sealing lib s u key header payload msg e =
    let (text, b, h) = then_call-ok (or_stop (bstr lib.floats payload)) _ (u, msg) e in
    let ((sealed, tag), c, g) =
      then_call-ok (of_option (lib.primitives.seal key s.them.nonce header text)) _ (u, msg) h in
    let pair = ok-injective (sealed_once s, envelope sealed tag) (u, msg) g in
    (
      text,
      sealed,
      tag,
      or_stop-ok _ text b,
      of_option-ok _ (sealed, tag) c,
      sym (ap (λ x. x.0) pair),
      sym (ap (λ x. x.1) pair),
    )

-- Whether a tree comes through `Node_bstr` and `Node_parse`.
abbrev pub IsSendable : Library → Node → Type 0
IsSendable lib n = IsReadableRoot n × (blob_count (cons n nil) < lib.fuel)

-- What was decrypted is parsed.
pub decrypt_node_lem :
    (lib : Library) (r u : CryptState) (key : ℕ) (header : Bytes) (packet payload : Node)
    (text : Bytes)
    → IsSendable lib payload
    → length text < 2 ^ 64
    → bstr lib.floats payload ≡ some text
    → decrypt_packet lib r key header packet ≡ ok (u, text)
    → decrypt_node lib r key header packet ≡ ok (u, payload)
unfolding decrypt_node
decrypt_node_lem lib r u key header packet payload text h l b e =
    rw (e, is_zero, parse-bstr lib.fuel lib.floats payload text h.0 h.1 b l) refl
  where
    is_zero : (length text == 0) ≡ false
    is_zero = ground (arith, bstr-pos lib.floats payload text b)

sealed_length :
    (lib : Library) (sealed tag t : Bytes)
    → bstr lib.floats (envelope sealed tag) ≡ some t
    → (length sealed < length t) × (length tag < length t)
unfolding bstr catbstr value_text
sealed_length lib sealed tag t e =
    let h = some-injective t _ (sym e) in simp (h, length-append) (grind arith)

-- What a sealed tree gives to a side whose nonce is the same.
pub decrypt_node-encrypt_node :
    (lib : Library) (s r u : CryptState) (key : ℕ) (header : Bytes) (payload msg : Node) (t : Bytes)
    → IsSealing lib.primitives
    → IsSendable lib payload
    → r.me.nonce ≡ s.them.nonce
    → encrypt_node lib s key header payload ≡ ok (u, msg)
    → bstr lib.floats msg ≡ some t
    → length t < 2 ^ 63
    → (decrypt_node lib r key header msg ≡ ok (opened_once r, payload)) × (u ≡ sealed_once s)
decrypt_node-encrypt_node lib s r u key header payload msg t law h n e b l =
    let (text, sealed, tag, b', c, eu, em) =
      encrypt_node-Sealing lib s u key header payload msg e in
    let short = sealed_length lib sealed tag t (subst (λ m. bstr lib.floats m ≡ some t) em b) in
    let size = law.sizes key s.them.nonce header text sealed tag c in
    let clear =
      subst (λ k. lib.primitives.unseal key k header sealed ≡ opened text tag) (sym n)
        (law.opens key s.them.nonce header text sealed tag c) in
    (
      ap (decrypt_node lib r key header) em
          ∙ decrypt_node_lem lib r (opened_once r) key header (envelope sealed tag) payload text h
              (omega arith) b' (decrypt_packet_lem lib r key header text sealed tag clear),
      eu,
    )

pub encrypt_node-IsSendable :
    (lib : Library) (s u : CryptState) (key : ℕ) (header : Bytes) (payload msg : Node) (t : Bytes)
    → 2 < lib.fuel
    → encrypt_node lib s key header payload ≡ ok (u, msg)
    → bstr lib.floats msg ≡ some t
    → length t < 2 ^ 63
    → IsSendable lib msg
encrypt_node-IsSendable lib s u key header payload msg t f e b l =
    let (text, sealed, tag, b', c, eu, em) =
      encrypt_node-Sealing lib s u key header payload msg e in
    let short = sealed_length lib sealed tag t (subst (λ m. bstr lib.floats m ≡ some t) em b) in
    subst (IsSendable lib) (sym em)
      ((env_word, (tt, omega arith, tt, (tt, omega arith, tt, tt))), two_blobs sealed tag)
  where
    env_word : IsWord (codes "env")
    env_word = (omega arith, refl, ((omega arith, refl), ((omega arith, refl), tt)))

    two_blobs : (a c : Bytes) → blob_count (cons (envelope a c) nil) < lib.fuel
    two_blobs [] [] = omega arith
    two_blobs [] (_ ∷ _) = omega arith
    two_blobs (_ ∷ _) [] = omega arith
    two_blobs (_ ∷ _) (_ ∷ _) = omega arith
