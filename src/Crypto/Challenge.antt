-- ===== src/Crypto/Challenge.antt =====
-- The hate challenge of src/protocol/crypto.c: work that one side asks of the other.
pub mod Solved
pub mod Answered
pub mod Accepted
use utu.Prelude.{
  ℕ, zero, suc, ◌+◌, ◌*◌, ◌%◌, ◌^◌, Bool, true, false, ◌&&◌, Option, none, some, List, [], ◌∷◌,
  ◌==◌, ltb, leb, codes, if◌then◌else◌,
}
use utu.Prelude.Calls.{Call, ok, failed, stopped, then_call, of_option, check}
use utu.Stackish.Node.{Bytes, Node}
use utu.Stackish.Cons.{Arg, node_cons}
use utu.Stackish.Decons.{Out, node_decons, same_bytes}
use utu.Crypto.{CryptState, CryptPeer, Library, Nonce}
use utu.Crypto.Packet.{of_built, of_parts}
use utu.Crypto.Signature.{Signing, Verified, sign_node, verify_signature}

-- What the challenge uses of the library: signatures, and `hash_memory` of the bytes of a nonce.
pub record Work : Type 0 where
  pub signing : Signing
  pub hash_nonce : Nonce → Option Bytes

abbrev pub challenge_args : ℕ → ℕ → Option Bytes → List Arg
challenge_args level left hash =
    Arg.uint64 level
    ∷ Arg.uint64 0
    ∷ Arg.uint64 left
    ∷ Arg.bstring hash
    ∷ Arg.c_string (some (codes "challenge"))
    ∷ []

-- The right half of the drawn nonce is brought below the number that the level stands for.
abbrev pub expected : ℕ → Nonce → Nonce
expected level nonce = record nonce { right = nonce.right % 2 ^ (level + 1) }

-- `CryptState_generate_hate_challenge`, with the nonce to expect. Shifting an `unsigned int` by 32 or
-- more is undefined.
unfoldable pub generate_hate_challenge :
    Library → Work → Option Nonce → CryptState → ℕ → Call (Nonce × Node)
generate_hate_challenge lib work drawn s level =
    if ltb 30 level
    then stopped
    else then_call (of_option drawn) (λ nonce.
      then_call
        (of_built (
          node_cons (codes "[nnnbw")
            (challenge_args level nonce.left (work.hash_nonce (expected level nonce)))))
        (λ msg.
          then_call (sign_node lib work.signing s.me.key s.me.name msg)
            (λ sign. ok (expected level nonce, sign))))

-- The tree of a signature that is valid; one that is missing is taken apart and stops the process.
abbrev pub trusted : Verified → Call Node
trusted v = check v.sig_stat (elim v.result [ none ↦ stopped | some n ↦ ok n ])

-- The hash, the nonce and the level of a challenge.
abbrev pub challenge_parts : List Out → Call (Bytes × Nonce × ℕ)
challenge_parts
      (Out.binary (some hash) ∷ Out.uint64 left ∷ Out.uint64 right ∷ Out.uint64 level ∷ []) =
    ok (hash, record { left = left; right = right }, level)
challenge_parts _ = failed

-- The loop, from a right half on and for as many rounds as are left.
unfoldable pub search : Work → Bytes → ℕ → ℕ → ℕ → Call ℕ
search work hash left right zero = failed
search work hash left right (suc rounds) =
    let later = search work hash left (right + 1) rounds in
    then_call (of_option (work.hash_nonce (record { left = left; right = right })))
      (λ test_hash. if same_bytes hash test_hash then ok right else later)

-- The checks and the search. The level is shifted by one more than itself; a shift of a `uint64_t`
-- by 64 or more is undefined.
unfoldable pub answer_of_parts : Library → Work → CryptState → ℕ → Bytes → Nonce → ℕ → Call Node
unfolding search
answer_of_parts lib work s max_allowed_level hash val level = check (val.right == 0) (
    check (leb level max_allowed_level) (
      if ltb 62 level
      then stopped
      else then_call (search work hash val.left 0 (level * 2 ^ (level + 1) % 2 ^ 64)) (λ right.
        then_call
          (of_built (
            node_cons (codes "[nnw")
              (Arg.uint64 val.left ∷ Arg.uint64 right ∷ Arg.c_string (some (codes "answer")) ∷ [])))
          (λ answer. sign_node lib work.signing s.me.key s.me.name answer))))

-- `CryptState_answer_hate_challenge`; that no level is allowed is a failed assertion.
unfoldable pub answer_hate_challenge : Library → Work → CryptState → Node → ℕ → Call Node
unfolding answer_of_parts
answer_hate_challenge lib work s challenge max_allowed_level =
    let answered = then_call (verify_signature lib work.signing s.them.name challenge) (λ v.
      then_call (trusted v) (λ tree.
        then_call (of_parts (node_decons tree (codes "[bnnnw") (codes "challenge" ∷ []))) (λ out.
          then_call (challenge_parts out) (λ (hash, val, level).
            answer_of_parts lib work s max_allowed_level hash val level)))) in
    if ltb 0 max_allowed_level then answered else stopped

abbrev pub answer_parts : List Out → Call Nonce
answer_parts (Out.uint64 left ∷ Out.uint64 right ∷ []) = ok (record { left = left; right = right })
answer_parts _ = stopped

-- `CryptState_validate_hate_challenge`: 1 is `ok`. The halves of an answer are swapped.
unfoldable pub validate_hate_challenge : Library → Work → CryptState → Node → Nonce → Call Bool
validate_hate_challenge lib work s answer expecting =
    then_call (verify_signature lib work.signing s.them.name answer) (λ v.
      then_call (trusted v) (λ tree.
        then_call (of_parts (node_decons tree (codes "[nnw") (codes "answer" ∷ []))) (λ out.
          then_call (answer_parts out) (λ ans_val.
            check ((expecting.left == ans_val.right) && (expecting.right == ans_val.left))
              (ok true)))))
