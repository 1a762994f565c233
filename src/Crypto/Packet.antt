-- ===== src/Crypto/Packet.antt =====
-- Encrypted packets of src/protocol/crypto.c. What a call that fails leaves in the state is left
-- out: the connection ends then.
use utu.Prelude.{ℕ, none, some, List, [], ◌∷◌, ◌==◌, length, if◌then◌else◌, codes}
use utu.Prelude.Calls.{Call, ok, failed, stopped, then_call, of_option, or_stop}
use utu.Stackish.Node.{Bytes, Node}
use utu.Stackish.Print.{bstr}
use utu.Stackish.Sequence.{Outcome, parsed, out_of_fuel, parse}
use utu.Stackish.Cons.{Arg, Built, built, null, crashed, node_cons}
use utu.Stackish.Cons
use utu.Stackish.Decons.{Parts, Out, parts, refused, node_decons, same_bytes}
use utu.Stackish.Decons
use utu.Crypto.{CryptState, Library, opened, spoiled, nonce_inc}

-- The tree that `Node_cons` returns, under a `check`.
abbrev pub of_built : Built → Call Node
of_built Cons.crashed = stopped
of_built null = failed
of_built (built none) = failed
of_built (built (some n)) = ok n

abbrev pub of_parts : Parts → Call (List Out)
of_parts Decons.crashed = stopped
of_parts (refused _) = failed
of_parts (parts os) = ok os

abbrev pub of_outcome : Outcome → Call Node
of_outcome (parsed none q) = failed
of_outcome (parsed (some n) q) = ok n
of_outcome Outcome.crashed = stopped
of_outcome out_of_fuel = stopped

-- `CryptState_encrypt_packet`, under the nonce of the other side.
unfoldable pub encrypt_packet : Library → CryptState → ℕ → Bytes → Bytes → Call (CryptState × Node)
encrypt_packet lib s key header payload =
    then_call (of_option (lib.primitives.seal key s.them.nonce header payload)) (λ (text, tag).
      then_call
        (of_built (
          node_cons (codes "[bbw") (
            Arg.bstring (some text)
            ∷ Arg.bstring (some tag)
            ∷ Arg.c_string (some (codes "env"))
            ∷ [])))
        (λ msg. ok (record s { them = record s.them { nonce = nonce_inc s.them.nonce } }, msg)))

-- `CryptState_encrypt_node`
unfoldable pub encrypt_node : Library → CryptState → ℕ → Bytes → Node → Call (CryptState × Node)
unfolding encrypt_packet
encrypt_node lib s key header payload =
    then_call (or_stop (bstr lib.floats payload)) (λ text. encrypt_packet lib s key header text)

-- The text is opened under the nonce of this side, and the tag compared with the one received.
unfoldable pub open_text :
    Library → CryptState → ℕ → Bytes → Bytes → Bytes → Call (CryptState × Bytes)
open_text lib s key header rectag text = elim (lib.primitives.unseal key s.me.nonce header text) [
  | spoiled left ↦ ok (s, left)
  | opened payload tag ↦
      if same_bytes tag rectag
      then ok (record s { me = record s.me { nonce = nonce_inc s.me.nonce } }, payload)
      else failed
]

-- What `CryptState_decrypt_packet` returns once a check before that of the tag has failed: `payload`,
-- where it was written.
abbrev pub unopened : CryptState → List Out → Call (CryptState × Bytes)
unopened s (Out.binary tag ∷ Out.binary (some text) ∷ []) = ok (s, text)
unopened s _ = failed

-- The tag and the text of a packet; one that is null is followed.
abbrev pub tag_and_text : List Out → Call (Bytes × Bytes)
tag_and_text (Out.binary (some tag) ∷ Out.binary (some text) ∷ []) = ok (tag, text)
tag_and_text _ = stopped

-- `CryptState_decrypt_packet`
unfoldable pub decrypt_packet : Library → CryptState → ℕ → Bytes → Node → Call (CryptState × Bytes)
unfolding open_text
decrypt_packet lib s key header packet =
    elim (node_decons packet (codes "[bbw") (codes "env" ∷ [])) [
      | Decons.crashed ↦ stopped
      | refused out ↦ unopened s out
      | parts out ↦
          then_call (tag_and_text out) (λ (rectag, text). open_text lib s key header rectag text)
    ]

-- `CryptState_decrypt_node`
unfoldable pub decrypt_node : Library → CryptState → ℕ → Bytes → Node → Call (CryptState × Node)
unfolding decrypt_packet
decrypt_node lib s key header packet =
    then_call (decrypt_packet lib s key header packet) (λ (u, text).
      if length text == 0
      then failed
      else then_call (of_outcome (parse lib.fuel lib.floats text)) (λ n. ok (u, n)))
