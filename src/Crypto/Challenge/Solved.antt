-- ===== src/Crypto/Challenge/Solved.antt =====
-- What becomes of a hate challenge.
use utu.Prelude.{
  ℕ, zero, suc, ◌+◌, ◌%◌, ◌/◌, ◌^◌, ◌≡◌, ◌≤◌, ◌<◌, refl, sym, ap, ◌∙◌, subst, true, false, none,
  some, some-injective, [], ◌∷◌, length, length-append, codes, arith, ltb, leb, ◌&&◌,
}
use utu.Prelude.Calls.{ok, failed, then_call, then_call-ok, ok-injective}
use utu.Stackish.Node.{Bytes, Node, node, nil, cons, group, blob, number}
use utu.Stackish.Print.{bstr, catbstr, value_text, decimal}
use utu.Stackish.Text.{IsWord, IsWordByte, blob_count}
use utu.Stackish.Classes.{is_word_byte}
use utu.Stackish.Cons.{node_cons, build, step, take_arg}
use utu.Stackish.Cons
use utu.Stackish.Decons.{node_decons, take_apart, same_bytes}
use utu.Stackish.Decons
use utu.Crypto.{CryptState, Library, Nonce}
use utu.Crypto.Delivery.{IsSendable}
use utu.Crypto.Signature.{verified, sign_node, verify_signature}
use utu.Crypto.Signature.Swapped.{IsSigner, verify_signature-sign_node, sign_node-signed}
use utu.Crypto.Challenge.{
  Work, expected, generate_hate_challenge, answer_of_parts, answer_hate_challenge, search,
}

abbrev challenge_tree : ℕ → ℕ → Bytes → Node
challenge_tree level left hash = node (some (codes "challenge")) group (
    cons (node none (blob (some hash)) nil) (
      cons (node none (number left) nil)
        (cons (node none (number 0) nil) (cons (node none (number level) nil) nil))))

pub length-decimal : (f n : ℕ) → length (decimal f n) ≤ f
unfolding decimal
length-decimal zero n = omega arith
length-decimal (suc f) n =
    ground
      (arith, length-decimal f (n / 10), length-append (decimal f (n / 10)) ((48 + n % 10) ∷ []))

challenge-IsWord : IsWord (codes "challenge")
challenge-IsWord = (
  omega arith,
  refl,
  (
    byte 104 refl,
    (
      byte 97 refl,
      (
        byte 108 refl,
        (byte 108 refl, (byte 101 refl, (byte 110 refl, (byte 103 refl, (byte 101 refl, tt))))),
      ),
    ),
  ),
)
  where
    byte : (c : ℕ) → (ltb c 256 && is_word_byte c) ≡ true → IsWordByte c
    byte c h = ground arith

challenge_tree-IsSendable :
    (lib : Library) (level left : ℕ) (hash : Bytes)
    → 2 < lib.fuel
    → level < 2 ^ 64
    → left < 2 ^ 64
    → length hash < 2 ^ 63
    → IsSendable lib (challenge_tree level left hash)
challenge_tree-IsSendable lib level left hash f v l h =
    ((challenge-IsWord, (tt, h, tt, (tt, l, tt, (tt, omega arith, tt, (tt, v, tt, tt))))), one hash)
  where
    one : (t : Bytes) → blob_count (cons (challenge_tree level left t) nil) < lib.fuel
    one [] = omega arith
    one (_ ∷ _) = omega arith

length-challenge_tree :
    (lib : Library) (level left : ℕ) (hash t : Bytes)
    → length hash < 2 ^ 63
    → bstr lib.floats (challenge_tree level left hash) ≡ some t
    → length t < 2 ^ 64
unfolding bstr catbstr value_text
length-challenge_tree lib level left hash t h e =
    let s = some-injective t _ (sym e) in
    let a = length-decimal 20 level in
    let b = length-decimal 20 left in
    let c = length-decimal 20 0 in
    let d = length-decimal 20 (length hash) in simp (s, length-append) (grind arith)

generated :
    (lib : Library) (work : Work) (nonce : Nonce) (a : CryptState) (level : ℕ) (hash : Bytes)
    → level < 31
    → work.hash_nonce (expected level nonce) ≡ some hash
    → generate_hate_challenge lib work (some nonce) a level
      ≡ then_call
          (sign_node lib work.signing a.me.key a.me.name (challenge_tree level nonce.left hash))
          (λ sign. ok (expected level nonce, sign))
unfolding generate_hate_challenge node_cons build Cons.step take_arg
generated lib work nonce a level hash l h = rw (generate_hate_challenge, small, h) refl
  where
    small : ltb 30 level ≡ false
    small = ground arith

-- What a challenge was made of.
pub generate-signed :
    (lib : Library) (work : Work) (nonce expecting : Nonce) (a : CryptState) (level : ℕ)
    (hash : Bytes) (challenge : Node)
    → level < 31
    → work.hash_nonce (expected level nonce) ≡ some hash
    → generate_hate_challenge lib work (some nonce) a level ≡ ok (expecting, challenge)
    → (sign_node lib work.signing a.me.key a.me.name (challenge_tree level nonce.left hash)
        ≡ ok challenge)
      × (expecting ≡ expected level nonce)
generate-signed lib work nonce expecting a level hash challenge l h e =
    let (sign, s, k) =
      then_call-ok
        (sign_node lib work.signing a.me.key a.me.name (challenge_tree level nonce.left hash)) _
        (expecting, challenge) (sym (generated lib work nonce a level hash l h) ∙ e) in
    let pair = ok-injective (expected level nonce, sign) (expecting, challenge) k in
    (s ∙ ap (λ x. ok x.1) pair, sym (ap (λ x. x.0) pair))

-- Who signs and who checks: the name that one goes by is the name that the other knows.
abbrev pub Knows : Library → Work → CryptState → CryptState → Type 0
Knows lib work a b =
    (public_key : ℕ) × (exported : Bytes) × (name : Bytes) × IsSigner lib work.signing a.me.key
      public_key exported
    × (a.me.name ≡ some name)
    × (b.them.name ≡ some name)

-- The tree of a challenge reaches the other side.
pub verified_challenge :
    (lib : Library) (work : Work) (nonce expecting : Nonce) (a b : CryptState) (level : ℕ)
    (hash : Bytes) (challenge : Node)
    → Knows lib work a b
    → 2 < lib.fuel
    → level < 31
    → nonce.left < 2 ^ 64
    → length hash < 2 ^ 63
    → work.hash_nonce (expected level nonce) ≡ some hash
    → generate_hate_challenge lib work (some nonce) a level ≡ ok (expecting, challenge)
    → verify_signature lib work.signing b.them.name challenge
      ≡ verified true (some (challenge_tree level nonce.left hash))
verified_challenge lib work nonce expecting a b level hash challenge
      (public_key, exported, name, signer, mine, theirs) f l n small h e =
    let tree = challenge_tree level nonce.left hash in
    let (s, x) = generate-signed lib work nonce expecting a level hash challenge l h e in
    let s' = subst (λ k. sign_node lib work.signing a.me.key k tree ≡ ok challenge) mine s in
    let (payload, h2, sg, p, q, m) =
      sign_node-signed lib work.signing a.me.key exported name tree challenge signer.exports s' in
    ap (λ k. verify_signature lib work.signing k challenge) theirs
    ∙ verify_signature-sign_node lib work.signing a.me.key public_key exported name payload tree
        challenge signer
        (challenge_tree-IsSendable lib level nonce.left hash f (omega arith) n small) p
        (length-challenge_tree lib level nonce.left hash payload small p) s'

-- What the other side makes of it.
pub answer_lem :
    (lib : Library) (work : Work) (nonce expecting : Nonce) (a b : CryptState)
    (level max_allowed_level : ℕ) (hash : Bytes) (challenge : Node)
    → Knows lib work a b
    → 2 < lib.fuel
    → 0 < max_allowed_level
    → level < 31
    → nonce.left < 2 ^ 64
    → length hash < 2 ^ 63
    → work.hash_nonce (expected level nonce) ≡ some hash
    → generate_hate_challenge lib work (some nonce) a level ≡ ok (expecting, challenge)
    → answer_hate_challenge lib work b challenge max_allowed_level
      ≡ answer_of_parts lib work b max_allowed_level hash
          (record { left = nonce.left; right = 0 })
          level
unfolding answer_hate_challenge node_decons take_apart Decons.step
answer_lem lib work nonce expecting a b level max_allowed_level hash challenge k f m l n small h e =
    rw
      (
        answer_hate_challenge,
        positive max_allowed_level m,
        verified_challenge lib work nonce expecting a b level hash challenge k f l n small h e,
      )
      refl
  where
    positive : (m : ℕ) → 0 < m → ltb 0 m ≡ true
    positive m p = ground arith

-- A challenge of level 0 that CryptState_generate_hate_challenge has made is never answered: whatever
-- positive level is allowed, CryptState_answer_hate_challenge fails. The other side knows the name
-- and the key of the one that asks, and the nonce has a hash.
pub answer_hate_challenge-zero :
    (lib : Library) (work : Work) (nonce expecting : Nonce) (a b : CryptState)
    (max_allowed_level : ℕ) (hash : Bytes) (challenge : Node)
    → Knows lib work a b
    → 2 < lib.fuel
    → 0 < max_allowed_level
    → nonce.left < 2 ^ 64
    → length hash < 2 ^ 63
    → work.hash_nonce (expected 0 nonce) ≡ some hash
    → generate_hate_challenge lib work (some nonce) a 0 ≡ ok (expecting, challenge)
    → answer_hate_challenge lib work b challenge max_allowed_level ≡ failed
unfolding answer_of_parts search
answer_hate_challenge-zero lib work nonce expecting a b max_allowed_level hash challenge k f m n
      small h e =
    answer_lem lib work nonce expecting a b 0 max_allowed_level hash challenge k f m (omega arith) n
      small h e
    ∙ rw (answer_of_parts, leb_zero max_allowed_level) refl
  where
    leb_zero : (m : ℕ) → leb 0 m ≡ true
    leb_zero m = ground arith
