-- ===== src/Crypto.antt =====
-- The key exchange of src/protocol/crypto.c over the primitives of libtomcrypt.
pub mod Packet
pub mod Exchange
pub mod Receiver
pub mod Initiator
pub mod Delivery
pub mod Forged
pub mod Signature
pub mod Challenge
use utu.Prelude.{ℕ, ◌+◌, ◌%◌, ◌^◌, ◌≡◌, Bool, true, false, ◌&&◌, Option, none, some, ◌==◌}
use utu.Stackish.Node.{Bytes, Floats}

-- `CryptNonce`: two `uint64_t`.
pub record Nonce : Type 0 where
  pub left : ℕ
  pub right : ℕ

-- `CryptPeer`. Keys are numbers that the code does not look into; a symmetric key that was wiped or
-- never scheduled is 0. The name and the session key may be null.
pub record CryptPeer : Type 0 where
  pub name : Option Bytes
  pub nonce : Nonce
  pub key : ℕ
  pub session : Option Bytes
  pub skey : ℕ

pub record CryptState : Type 0 where
  pub me : CryptPeer
  pub them : CryptPeer
  pub shared : ℕ

-- What libtomcrypt does: `ecc_export` of the public part, `ecc_import`, `ecc_shared_secret` of a
-- private and a public key, `rijndael_setup`, and `ccm_memory` in both directions with a key, a
-- nonce, a header and a text: the other text and the tag. `none` is a status that is not `CRYPT_OK`.
-- Opening works in place: where it fails, `spoiled` has what the buffer of the text then holds.
pub data Opened : Type 0 where
  opened : Bytes → Bytes → Opened
  spoiled : Bytes → Opened

pub record Primitives : Type 0 where
  pub export_key : ℕ → Option Bytes
  pub import_key : Bytes → Option ℕ
  pub shared_secret : ℕ → ℕ → Option Bytes
  pub schedule : Bytes → Option ℕ
  pub seal : ℕ → Nonce → Bytes → Bytes → Option (Bytes × Bytes)
  pub unseal : ℕ → Nonce → Bytes → Bytes → Opened

-- What the code is compiled with: the primitives, the printing of floating point numbers, and the
-- rounds that the parser may take, and the space in the empty buffer of a socket.
pub record Library : Type 0 where
  pub primitives : Primitives
  pub floats : Floats
  pub fuel : ℕ
  pub space : ℕ

-- `CryptState_nonce_inc` and `CryptState_nonce_check`.
abbrev pub nonce_inc : Nonce → Nonce
nonce_inc n = record { left = (n.left + 1) % 2 ^ 64; right = (n.right + 1) % 2 ^ 64 }

abbrev pub nonce_check : Nonce → Nonce → Bool
nonce_check a b = (a.left == b.left) && (a.right == b.right)
