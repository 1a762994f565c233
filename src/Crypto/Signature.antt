-- ===== src/Crypto/Signature.antt =====
-- Signed trees of src/protocol/crypto.c.
pub mod Swapped
use utu.Prelude.{ℕ, Bool, true, false, Option, none, some, List, [], ◌∷◌, codes, if◌then◌else◌}
use utu.Prelude.Calls.{Call, ok, failed, stopped, then_call, of_option, or_stop}
use utu.Stackish.Node.{Bytes, Node}
use utu.Stackish.Print.{bstr}
use utu.Stackish.Sequence.{Outcome, parsed, crashed, out_of_fuel, parse}
use utu.Stackish.Cons.{Arg, node_cons}
use utu.Stackish.Decons.{Parts, Out, crashed, refused, parts, node_decons, same_bytes}
use utu.Crypto.{Library}
use utu.Crypto.Packet.{of_built}

-- What libtomcrypt does here: `hash_memory`, `ecc_sign_hash` with a private key, and
-- `ecc_verify_hash` of a public key, a signature and a hash. `none` is a status that is not
-- `CRYPT_OK`.
pub record Signing : Type 0 where
  pub hash : Bytes → Option Bytes
  pub sign_hash : ℕ → Bytes → Option Bytes
  pub verify_hash : ℕ → Bytes → Bytes → Option Bool

abbrev pub sign_args : Bytes → Bytes → Bytes → Option Bytes → Option Bytes → List Arg
sign_args payload hash signature public_key name =
    Arg.bstring (some payload)
    ∷ Arg.bstring (some hash)
    ∷ Arg.bstring (some signature)
    ∷ Arg.c_string (some (codes "message"))
    ∷ Arg.bstring public_key
    ∷ Arg.bstring name
    ∷ Arg.c_string (some (codes "identity"))
    ∷ Arg.c_string (some (codes "signed"))
    ∷ []

-- `CryptState_sign_node`
unfoldable pub sign_node : Library → Signing → ℕ → Option Bytes → Node → Call Node
sign_node lib sg private_key name input = then_call (or_stop (bstr lib.floats input)) (λ payload.
    then_call (of_option (sg.hash payload)) (λ hash.
      then_call (of_option (sg.sign_hash private_key hash)) (λ signature. of_built (
        node_cons (codes "[[bbbw[bbww")
          (sign_args payload hash signature (lib.primitives.export_key private_key) name)))))

-- What `CryptState_verify_signature` writes through `sig_stat`, and what it returns.
pub record Verified : Type 0 where
  pub sig_stat : Bool
  pub result : Option Node

abbrev pub verified : Bool → Option Node → Call Verified
verified stat n = ok (record { sig_stat = stat; result = n })

-- `biseq` as a condition: it is -1 where one of the two is null.
abbrev pub biseq : Option Bytes → Option Bytes → Bool
biseq none _ = true
biseq (some a) none = true
biseq (some a) (some b) = same_bytes a b

abbrev pub parsed_payload : Bool → Outcome → Call Verified
parsed_payload stat (parsed n q) = verified stat n
parsed_payload stat Outcome.crashed = stopped
parsed_payload stat out_of_fuel = stopped

-- The signature of the hash, with a key that was imported; then the payload is parsed.
unfoldable pub verify_parts : Library → Signing → ℕ → Bytes → Bytes → Bytes → Call Verified
verify_parts lib sg public_key signature hash payload =
    elim (sg.verify_hash public_key signature hash) [
      | none ↦ verified false none
      | some stat ↦ parsed_payload stat (parse lib.fuel lib.floats payload)
    ]

-- The name is compared, and the key that comes with the signature is imported. Blobs that are null
-- do not come from the parser.
unfoldable pub verify_with : Library → Signing → Option Bytes → List Out → Call Verified
unfolding verify_parts
verify_with lib sg name
      (Out.binary sig_name
        ∷ Out.binary (some pubkey)
        ∷ Out.binary (some signature)
        ∷ Out.binary (some hash)
        ∷ Out.binary (some payload)
        ∷ []) =
    if biseq sig_name name
    then (elim (lib.primitives.import_key pubkey) [
      | none ↦ verified false none
      | some public_key ↦ verify_parts lib sg public_key signature hash payload
    ])
    else verified false none
verify_with lib sg name _ = stopped

-- `CryptState_verify_signature`
unfoldable pub verify_signature : Library → Signing → Option Bytes → Node → Call Verified
unfolding verify_with
verify_signature lib sg name input =
    elim (node_decons input (codes "[[bbw[bbbww")
      (codes "identity" ∷ codes "message" ∷ codes "signed" ∷ [])) [
        | Parts.crashed ↦ stopped
        | refused _ ↦ verified false none
        | parts out ↦ verify_with lib sg name out
      ]
