-- ===== src/Crypto/Challenge/Accepted.antt =====
-- A challenge that is answered, and the answer that is accepted.
use native.Mathlib.Nat.{mod-lt, mul-le-mul, pow-le-pow_right}
use utu.Prelude.{
  ℕ, ◌+◌, ◌*◌, ◌%◌, ◌^◌, ◌≡◌, ◌≤◌, ◌<◌, refl, sym, ap, ◌∙◌, subst, true, false, none, some,
  some-injective, length, length-append, codes, arith, ltb, leb, ◌==◌, ◌&&◌,
}
use utu.Prelude.Calls.{ok}
use utu.Stackish.Node.{Bytes, Node, node, nil, cons, group, number}
use utu.Stackish.Print.{bstr, catbstr, value_text}
use utu.Stackish.Text.{IsWord, IsWordByte}
use utu.Stackish.Classes.{is_word_byte}
use utu.Stackish.Cons.{node_cons, build, step, take_arg}
use utu.Stackish.Cons
use utu.Stackish.Decons.{node_decons, take_apart}
use utu.Stackish.Decons
use utu.Crypto.{CryptState, Library, Nonce}
use utu.Crypto.Delivery.{IsSendable}
use utu.Crypto.Signature.{sign_node, verify_signature}
use utu.Crypto.Signature.Swapped.{verify_signature-sign_node, sign_node-signed}
use utu.Crypto.Challenge.{
  Work, expected, generate_hate_challenge, answer_of_parts, answer_hate_challenge,
  validate_hate_challenge, search,
}
use utu.Crypto.Challenge.Solved.{Knows, answer_lem, generate-signed, length-decimal}
use utu.Crypto.Challenge.Answered.{IsHiding, search_lem}

within : (p q r : ℕ) → r < p → p ≤ q → q ≤ 31 * 2 ^ 31 → r < q % 2 ^ 64
within p q r a b c = omega arith

-- Below the level's number there are as many rounds as are needed.
enough : (level p r : ℕ) → 0 < level → level < 31 → 0 < p → p ≤ 2 ^ 31 → r % p < level * p % 2 ^ 64
enough level p r a b c d =
    let one = mul-le-mul {n₁ = 1} {m₁ = p} {n₂ = level} {m₂ = p} a (omega arith) in
    within p (level * p) (r % p) (mod-lt r c) (subst (λ x. x ≤ level * p) (single p) one)
      (mul-le-mul {n₁ = level} {m₁ = p} {n₂ = 31} {m₂ = 2 ^ 31} (omega arith) d)
  where
    single : (n : ℕ) → 1 * n ≡ n
    single n = omega arith

rounds_lem :
    (level r : ℕ) → 0 < level → level < 31 → r % 2 ^ (level + 1) < level * 2 ^ (level + 1) % 2 ^ 64
rounds_lem level r p l =
    enough level (2 ^ (level + 1)) r p l
      (pow-le-pow_right {n = 2} (omega arith) {i = 0} {j = level + 1} (omega arith))
      (pow-le-pow_right {n = 2} (omega arith) {i = level + 1} {j = 31} (omega arith))

abbrev pub answer_tree : ℕ → ℕ → Node
answer_tree left right =
    node (some (codes "answer")) group
      (cons (node none (number right) nil) (cons (node none (number left) nil) nil))

answer_tree-IsSendable :
    (lib : Library) (left right : ℕ)
    → 2 < lib.fuel
    → left < 2 ^ 64
    → right < 2 ^ 64
    → IsSendable lib (answer_tree left right)
answer_tree-IsSendable lib left right f l r =
    ((answer-IsWord, (tt, r, tt, (tt, l, tt, tt))), omega arith)
  where
    byte : (c : ℕ) → (ltb c 256 && is_word_byte c) ≡ true → IsWordByte c
    byte c h = ground arith

    answer-IsWord : IsWord (codes "answer")
    answer-IsWord = (
      omega arith,
      refl,
      (byte 110 refl, (byte 115 refl, (byte 119 refl, (byte 101 refl, (byte 114 refl, tt))))),
    )

length-answer_tree :
    (lib : Library) (left right : ℕ) (t : Bytes)
    → bstr lib.floats (answer_tree left right) ≡ some t
    → length t < 2 ^ 64
unfolding bstr catbstr value_text
length-answer_tree lib left right t e =
    let s = some-injective t _ (sym e) in
    let a = length-decimal 20 left in
    let b = length-decimal 20 right in simp (s, length-append) (grind arith)

-- A signed answer goes through the checks of the side that asked.
validated :
    (lib : Library) (work : Work) (a b : CryptState) (expecting : Nonce) (answer : Node)
    → Knows lib work b a
    → 2 < lib.fuel
    → expecting.left < 2 ^ 64
    → expecting.right < 2 ^ 64
    → sign_node lib work.signing b.me.key b.me.name (answer_tree expecting.left expecting.right)
      ≡ ok answer
    → validate_hate_challenge lib work a answer expecting ≡ ok true
unfolding validate_hate_challenge node_decons take_apart Decons.step
validated lib work a b expecting answer (public_key, exported, name, signer, mine, theirs) f l r e =
    let tree = answer_tree expecting.left expecting.right in
    let s = subst (λ k. sign_node lib work.signing b.me.key k tree ≡ ok answer) mine e in
    let (payload, hash, signature, p, q, m) =
      sign_node-signed lib work.signing b.me.key exported name tree answer signer.exports s in
    let known =
      ap (λ k. verify_signature lib work.signing k answer) theirs
      ∙ verify_signature-sign_node lib work.signing b.me.key public_key exported name payload tree
          answer signer (answer_tree-IsSendable lib expecting.left expecting.right f l r) p
          (length-answer_tree lib expecting.left expecting.right payload p) s in
    rw (validate_hate_challenge, known, same expecting.left, same expecting.right) refl
  where
    same : (n : ℕ) → (n == n) ≡ true
    same n = ground arith

-- A hate challenge of a level from 1 to 30 that the other side allows is answered with the missing
-- half of the nonce, signed, and the answer is accepted. Both sides know each other's name and key,
-- the nonces with the left half that was drawn have hashes, and only the right half in question has
-- the hash of the challenge.
pub validate-answer :
    (lib : Library) (work : Work) (nonce expecting : Nonce) (a b : CryptState)
    (level max_allowed_level : ℕ) (hash : Bytes) (challenge answer : Node)
    → Knows lib work a b
    → Knows lib work b a
    → 2 < lib.fuel
    → 0 < level
    → level < 31
    → level ≤ max_allowed_level
    → nonce.left < 2 ^ 64
    → length hash < 2 ^ 63
    → IsHiding work nonce.left (nonce.right % 2 ^ (level + 1)) hash
    → generate_hate_challenge lib work (some nonce) a level ≡ ok (expecting, challenge)
    → sign_node lib work.signing b.me.key b.me.name (answer_tree expecting.left expecting.right)
      ≡ ok answer
    → (answer_hate_challenge lib work b challenge max_allowed_level ≡ ok answer)
      × (validate_hate_challenge lib work a answer expecting ≡ ok true)
unfolding answer_of_parts node_cons build Cons.step take_arg
validate-answer lib work nonce expecting a b level max_allowed_level hash challenge answer k k2 f p
      l allowed n small h e s =
    (
      answer_lem lib work nonce expecting a b level max_allowed_level hash challenge k f
            (omega arith) l n small hashed e
          ∙ rw (answer_of_parts, allows, shifts, found) signs,
      validated lib work a b expecting answer k2 f left_small right_small s,
    )
  where
    hashed : work.hash_nonce (expected level nonce) ≡ some hash
    hashed = h.total (nonce.right % 2 ^ (level + 1)) ∙ ap (λ x. some x) h.hit

    made : expecting ≡ expected level nonce
    made = (generate-signed lib work nonce expecting a level hash challenge l hashed e).1

    below : (r q : ℕ) → r < q % 2 ^ 64 → r < 2 ^ 64
    below r q c = omega arith

    left_small : expecting.left < 2 ^ 64
    left_small = subst (λ x. x.left < 2 ^ 64) (sym made) n

    right_small : expecting.right < 2 ^ 64
    right_small =
        subst (λ x. x.right < 2 ^ 64) (sym made)
          (below (nonce.right % 2 ^ (level + 1)) (level * 2 ^ (level + 1))
            (rounds_lem level nonce.right p l))

    allows : leb level max_allowed_level ≡ true
    allows = ground arith

    shifts : ltb 62 level ≡ false
    shifts = ground arith

    found :
        search work hash nonce.left 0 (level * 2 ^ (level + 1) % 2 ^ 64)
        ≡ ok (nonce.right % 2 ^ (level + 1))
    found =
        search_lem work hash nonce.left (nonce.right % 2 ^ (level + 1)) h
          (level * 2 ^ (level + 1) % 2 ^ 64) 0 (nonce.right % 2 ^ (level + 1)) (omega arith)
          (rounds_lem level nonce.right p l)

    signs :
        sign_node lib work.signing b.me.key b.me.name
          (answer_tree nonce.left (nonce.right % 2 ^ (level + 1)))
        ≡ ok answer
    signs =
        subst
          (λ x.
            sign_node lib work.signing b.me.key b.me.name (answer_tree x.left x.right) ≡ ok answer)
          made s
