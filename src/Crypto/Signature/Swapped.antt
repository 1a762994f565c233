-- ===== src/Crypto/Signature/Swapped.antt =====
-- What a signature says of the tree that comes with it.
use utu.Prelude.{
  ℕ, ◌^◌, ◌≡◌, ◌<◌, refl, sym, ap, ◌∙◌, subst, true, Option, none, some, some-injective, [], ◌∷◌,
  length, codes,
}
use utu.Prelude.Calls.{ok, then_call-ok, or_stop, or_stop-ok, of_option, of_option-ok, ok-injective}
use utu.Stackish.Node.{Bytes, Node, Nodes, node, nil, cons, group, blob}
use utu.Stackish.Print.{bstr}
use utu.Stackish.RoundTrip.{parse-bstr}
use utu.Stackish.Cons.{node_cons, build, step, take_arg}
use utu.Stackish.Cons
use utu.Stackish.Decons.{node_decons, take_apart, same_bytes}
use utu.Stackish.Decons
use utu.Crypto.{Library}
use utu.Crypto.Packet.{of_built}
use utu.Crypto.Delivery.{IsSendable, same_bytes_refl}
use utu.Crypto.Signature.{
  Signing, verified, sign_args, sign_node, verify_signature, verify_with, verify_parts,
}

abbrev leaf : Bytes → Nodes → Nodes
leaf t rest = cons (node none (blob (some t)) nil) rest

-- A signed tree: the printed tree, its hash and the signature, and the public key and the name.
abbrev pub signed : Bytes → Bytes → Bytes → Bytes → Bytes → Node
signed payload hash signature public_key name = node (some (codes "signed")) group (
    cons (node (some (codes "identity")) group (leaf name (leaf public_key nil))) (
      cons (node (some (codes "message")) group (leaf signature (leaf hash (leaf payload nil))))
        nil))

signed_lem :
    (payload hash signature public_key name : Bytes)
    → of_built (
        node_cons
          (codes "[[bbbw[bbww")
          (sign_args payload hash signature (some public_key) (some name)))
      ≡ ok (signed payload hash signature public_key name)
unfolding node_cons build Cons.step take_arg
signed_lem payload hash signature public_key name = refl

parts_lem :
    (lib : Library) (sg : Signing) (expected : Option Bytes)
    (payload hash signature public_key name : Bytes)
    → verify_signature lib sg expected (signed payload hash signature public_key name)
      ≡ verify_with lib sg expected (
          Decons.binary (some name)
          ∷ Decons.binary (some public_key)
          ∷ Decons.binary (some signature)
          ∷ Decons.binary (some hash)
          ∷ Decons.binary (some payload)
          ∷ [])
unfolding verify_signature node_decons take_apart Decons.step
parts_lem lib sg expected payload hash signature public_key name = refl

-- What the documentation of the primitives promises of one key: its exported part is imported as
-- `public_key`, under which the signatures of the key verify.
pub record IsSigner (lib : Library) (sg : Signing) (private_key public_key : ℕ) (exported : Bytes)
    : Type 0 where
  pub exports : lib.primitives.export_key private_key ≡ some exported
  pub imports : lib.primitives.import_key exported ≡ some public_key
  pub verifies :
      (hash signature : Bytes)
      → sg.sign_hash private_key hash ≡ some signature
      → sg.verify_hash public_key signature hash ≡ some true

accepted :
    (lib : Library) (sg : Signing) (private_key public_key : ℕ)
    (exported name text hash signature : Bytes) (tree : Node)
    → IsSigner lib sg private_key public_key exported
    → IsSendable lib tree
    → bstr lib.floats tree ≡ some text
    → length text < 2 ^ 64
    → sg.sign_hash private_key hash ≡ some signature
    → verify_signature lib sg (some name) (signed text hash signature exported name)
      ≡ verified true (some tree)
unfolding verify_with verify_parts
accepted lib sg private_key public_key exported name text hash signature tree signer h b l e =
    parts_lem lib sg (some name) text hash signature exported name
    ∙ rw
        (
          verify_with,
          same_bytes_refl name,
          signer.imports,
          verify_parts,
          signer.verifies hash signature e,
          parse-bstr lib.fuel lib.floats tree text h.0 h.1 b l,
        )
        refl

-- What a signed tree was made of.
pub sign_node-signed :
    (lib : Library) (sg : Signing) (private_key : ℕ) (exported name : Bytes) (input msg : Node)
    → lib.primitives.export_key private_key ≡ some exported
    → sign_node lib sg private_key (some name) input ≡ ok msg
    → (payload : Bytes) × (hash : Bytes) × (signature : Bytes) × (bstr lib.floats input
        ≡ some payload)
      × (sg.sign_hash private_key hash ≡ some signature)
      × (msg ≡ signed payload hash signature exported name)
unfolding sign_node
sign_node-signed lib sg private_key exported name input msg x e =
    let (payload, b, e1) = then_call-ok (or_stop (bstr lib.floats input)) _ msg e in
    let (hash, h, e2) = then_call-ok (of_option (sg.hash payload)) _ msg e1 in
    let (signature, s, e3) = then_call-ok (of_option (sg.sign_hash private_key hash)) _ msg e2 in
    let built =
      subst
        (λ k.
          of_built
            (node_cons (codes "[[bbbw[bbww") (sign_args payload hash signature k (some name)))
          ≡ ok msg)
        x e3 in
    (
      payload,
      hash,
      signature,
      or_stop-ok (bstr lib.floats input) payload b,
      of_option-ok (sg.sign_hash private_key hash) signature s,
      ok-injective msg (signed payload hash signature exported name)
          (sym built ∙ signed_lem payload hash signature exported name),
    )

-- CryptState_verify_signature of what CryptState_sign_node has made, under the same name, reports a
-- valid signature and returns the tree that was signed. The tree can be printed and read back, the
-- printed tree is shorter than 2 ^ 64 bytes, and the signatures of the key verify under the public
-- key that it exports.
pub verify_signature-sign_node :
    (lib : Library) (sg : Signing) (private_key public_key : ℕ) (exported name text : Bytes)
    (input msg : Node)
    → IsSigner lib sg private_key public_key exported
    → IsSendable lib input
    → bstr lib.floats input ≡ some text
    → length text < 2 ^ 64
    → sign_node lib sg private_key (some name) input ≡ ok msg
    → verify_signature lib sg (some name) msg ≡ verified true (some input)
verify_signature-sign_node lib sg private_key public_key exported name text input msg signer h b l
      e =
    let (payload, hash, signature, p, s, m) =
      sign_node-signed lib sg private_key exported name input msg signer.exports e in
    let same = some-injective text payload (sym b ∙ p) in
    ap (verify_signature lib sg (some name)) m
    ∙ accepted lib sg private_key public_key exported name payload hash signature input signer h p
        (subst (λ x. length x < 2 ^ 64) same l) s

-- The same tree with another payload.
abbrev pub with_payload : Bytes → Node → Node
with_payload t
      (node n v
        (cons who (cons (node m w (cons signature (cons hash (cons payload more)))) rest))) =
    node n v (cons who (cons (node m w (cons signature (cons hash (leaf t more)))) rest))
with_payload t n = n

-- Where the payload of a signed tree is replaced by the print of another one,
-- CryptState_verify_signature still reports a valid signature, and returns the other tree. That tree
-- can be printed and read back, its print is shorter than 2 ^ 64 bytes, and the signatures of the
-- key verify under the public key that it exports.
pub verify_signature-with_payload :
    (lib : Library) (sg : Signing) (private_key public_key : ℕ) (exported name text : Bytes)
    (input msg other : Node)
    → IsSigner lib sg private_key public_key exported
    → sign_node lib sg private_key (some name) input ≡ ok msg
    → IsSendable lib other
    → bstr lib.floats other ≡ some text
    → length text < 2 ^ 64
    → verify_signature lib sg (some name) (with_payload text msg) ≡ verified true (some other)
verify_signature-with_payload lib sg private_key public_key exported name text input msg other
      signer e h b l =
    let (payload, hash, signature, p, s, m) =
      sign_node-signed lib sg private_key exported name input msg signer.exports e in
    ap (λ x. verify_signature lib sg (some name) (with_payload text x)) m
    ∙ accepted lib sg private_key public_key exported name text hash signature other signer h b l s
