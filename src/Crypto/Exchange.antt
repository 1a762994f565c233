-- ===== src/Crypto/Exchange.antt =====
-- What both sides of the key exchange of src/protocol/crypto.c share.
use utu.Prelude.{ℕ, Bool, true, false, Option, none, some, List, [], ◌∷◌, codes}
use utu.Prelude.Calls.{Call, ok, stopped, then_call, of_option, check}
use utu.Stackish.Node.{Bytes, Node}
use utu.Stackish.Decons.{Out, node_decons}
use utu.Crypto.{CryptState, Library, Nonce}
use utu.Crypto.Packet.{of_parts}

-- The name of an initiator's messages and the bytes of an empty header.
abbrev pub header_word : Bytes
header_word = codes "header"

abbrev pub empty_header : Bytes
empty_header = codes "[ header \n"

-- `CryptState_import_key` of their key, which must not be null.
unfoldable pub import_their_key : Library → CryptState → Option Bytes → Call CryptState
import_their_key lib s none = stopped
import_their_key lib s (some bytes) =
    then_call (of_option (lib.primitives.import_key bytes))
      (λ key. ok (record s { them = record s.them { key = key } }))

-- The end of `CryptState_create_shared_key`: their key is imported and confirmed, and the secret
-- that both share makes the key.
unfoldable pub share_key :
    Library → (CryptState → Bool) → CryptState → Option Bytes → Call CryptState
unfolding import_their_key
share_key lib key_confirm s ecc_key = then_call (import_their_key lib s ecc_key) (λ u.
    check (key_confirm u) (
      then_call (of_option (lib.primitives.shared_secret u.me.key u.them.key)) (λ secret.
        then_call (of_option (lib.primitives.schedule secret))
          (λ key. ok (record u { shared = key })))))

abbrev key_and_nonce : List Out → Call (Option Bytes × Nonce)
key_and_nonce (Out.binary k ∷ Out.uint64 l ∷ Out.uint64 r ∷ []) =
    ok (k, record { left = l; right = r })
key_and_nonce _ = stopped

abbrev key_alone : List Out → Call (Option Bytes)
key_alone (Out.binary k ∷ []) = ok k
key_alone _ = stopped

-- `CryptState_create_shared_key`; `nonced` says that the header holds their nonce.
unfoldable pub create_shared_key :
    Library → (CryptState → Bool) → Bool → CryptState → Node → Call CryptState
unfolding share_key
create_shared_key lib key_confirm true s header =
    then_call (of_parts (node_decons header (codes "[bnnw") (header_word ∷ []))) (λ out.
      then_call (key_and_nonce out) (λ (k, nonce).
        share_key lib key_confirm (record s { them = record s.them { nonce = nonce } }) k))
create_shared_key lib key_confirm false s header =
    then_call (of_parts (node_decons header (codes "[bw") (header_word ∷ [])))
      (λ out. then_call (key_alone out) (λ k. share_key lib key_confirm s k))

-- The shared key and the buffers of both session keys are wiped.
abbrev wipe : CryptState → CryptState
wipe s = record {
  me = record s.me { session = none };
  them = record s.them { session = none };
  shared = 0;
}

abbrev with_keys : CryptState → ℕ → ℕ → CryptState
with_keys s mine theirs = record s {
  me = record s.me { skey = mine };
  them = record s.them { skey = theirs };
}

-- `CryptState_finalize_session`, with what it returns. The session keys must not be null. Where a
-- schedule fails the key stays as it was.
unfoldable pub finalize_session : Library → CryptState → Call (CryptState × Bool)
finalize_session lib s = elim s.me.session [
  | none ↦ stopped
  | some mine ↦ elim s.them.session [
    | none ↦ stopped
    | some theirs ↦ elim (lib.primitives.schedule mine) [
      | none ↦ ok (wipe s, false)
      | some a ↦ elim (lib.primitives.schedule theirs) [
        | none ↦ ok (wipe (with_keys s a s.them.skey), false)
        | some b ↦ ok (wipe (with_keys s a b), true)
      ]
    ]
  ]
]
