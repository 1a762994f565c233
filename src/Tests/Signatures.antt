-- ===== src/Tests/Signatures.antt =====
-- Signatures and challenges on concrete inputs, over primitives that hide nothing.
use utu.Prelude.{
  ℕ, ◌+◌, ◌≡◌, refl, ap, subst, true, none, some, some-injective, [], ◌∷◌, ◌++◌, codes, arith,
}
use utu.Prelude.Calls.{ok, failed}
use utu.Stackish.Node.{Bytes, Node, node, nil, group}
use utu.Stackish.Print.{decimal, value_text, catbstr, bstr}
use utu.Stackish.Cons.{node_cons, build, step, take_arg}
use utu.Stackish.Cons
use utu.Stackish.Decons.{same_bytes}
use utu.Crypto.{CryptState, CryptPeer, Nonce}
use utu.Crypto.Delivery.{same_bytes_refl}
use utu.Crypto.Signature.{Signing, verified, sign_node, verify_signature}
use utu.Crypto.Signature.Swapped.{
  IsSigner, signed, with_payload, verify_signature-sign_node, verify_signature-with_payload,
}
use utu.Crypto.Challenge.{
  Work, generate_hate_challenge, answer_hate_challenge, validate_hate_challenge,
}
use utu.Crypto.Challenge.Solved.{Knows, answer_hate_challenge-zero}
use utu.Crypto.Challenge.Answered.{IsHiding}
use utu.Crypto.Challenge.Accepted.{validate-answer}
use utu.Tests.Frames.{toy_library, hello, hello_text, hello-IsSendable, printed_hello}

abbrev toy_signing : Signing
toy_signing = record {
  hash = λ text. some text;
  sign_hash = λ key hash. some (key ∷ hash);
  verify_hash = λ key signature hash. some (same_bytes signature (key ∷ hash));
}

abbrev toy_work : Work
toy_work = record { signing = toy_signing; hash_nonce = λ n. some (n.left ∷ n.right ∷ []) }

toy-IsSigner : (k : ℕ) → IsSigner toy_library toy_signing k k (k ∷ [])
toy-IsSigner k = record {
  exports = refl;
  imports = refl;
  verifies = λ hash signature e. ap some (
      subst (λ s. same_bytes s (k ∷ hash) ≡ true) (some-injective (k ∷ hash) signature e)
        (same_bytes_refl (k ∷ hash)));
}

abbrev signed_by : ℕ → Bytes → Bytes → Node
signed_by k name text = signed text text (k ∷ text) (k ∷ []) name

verify_signature-sign_node_example :
    verify_signature toy_library toy_signing (some (codes "a")) (signed_by 1 (codes "a") hello_text)
    ≡ verified true (some hello)
unfolding sign_node node_cons build Cons.step take_arg bstr catbstr value_text decimal
verify_signature-sign_node_example =
    verify_signature-sign_node toy_library toy_signing 1 1 (1 ∷ []) (codes "a") hello_text hello
      (signed_by 1 (codes "a") hello_text) (toy-IsSigner 1) hello-IsSendable printed_hello
      (omega arith) refl

verify_signature-with_payload_example :
    verify_signature toy_library toy_signing
      (some (codes "a"))
      (with_payload hello_text (signed_by 1 (codes "a") (codes "[ empty " ++ (10 ∷ []))))
    ≡ verified true (some hello)
unfolding sign_node node_cons build Cons.step take_arg bstr catbstr value_text decimal
verify_signature-with_payload_example =
    verify_signature-with_payload toy_library toy_signing 1 1 (1 ∷ []) (codes "a") hello_text
      (node (some (codes "empty")) group nil)
      (signed_by 1 (codes "a") (codes "[ empty " ++ (10 ∷ []))) hello (toy-IsSigner 1) refl
      hello-IsSendable printed_hello (omega arith)

abbrev side : ℕ → Bytes → CryptPeer
side k name = record {
  name = some name;
  nonce = record { left = 0; right = 0 };
  key = k;
  session = none;
  skey = 0;
}

abbrev asking : CryptState
asking = record { me = side 1 (codes "a"); them = side 2 (codes "b"); shared = 0 }

abbrev asked : CryptState
asked = record { me = side 2 (codes "b"); them = side 1 (codes "a"); shared = 0 }

asking-Knows : Knows toy_library toy_work asking asked
asking-Knows = (1, 1 ∷ [], codes "a", toy-IsSigner 1, refl, refl)

asked-Knows : Knows toy_library toy_work asked asking
asked-Knows = (2, 2 ∷ [], codes "b", toy-IsSigner 2, refl, refl)

abbrev drawn : Nonce
drawn = record { left = 5; right = 7 }

toy-IsHiding : IsHiding toy_work 5 3 (5 ∷ 3 ∷ [])
toy-IsHiding = record {
  hash_of = λ r. 5 ∷ r ∷ [];
  total = λ r. refl;
  hit = refl;
  alone = λ r e. ap (elim [ [] ↦ r | x ∷ [] ↦ r | x ∷ y ∷ more ↦ y ]) e;
}

-- The print of a challenge whose level has one digit.
abbrev challenge_text : ℕ → ℕ → Bytes
challenge_text level right =
    codes "[ "
    ++ ((48 + level)
        ∷ (codes " 0 5 '2:" ++ ((5 ∷ right ∷ []) ++ (codes "' challenge " ++ (10 ∷ [])))))

validate-answer_example :
    (answer_hate_challenge toy_library toy_work asked
        (signed_by 1 (codes "a") (challenge_text 1 3))
        4
      ≡ ok (signed_by 2 (codes "b") (codes "[ 5 3 answer " ++ (10 ∷ []))))
    × (validate_hate_challenge toy_library toy_work asking
          (signed_by 2 (codes "b") (codes "[ 5 3 answer " ++ (10 ∷ [])))
          (record { left = 5; right = 3 })
        ≡ ok true)
unfolding generate_hate_challenge sign_node node_cons build Cons.step take_arg bstr catbstr
    value_text decimal
validate-answer_example =
    validate-answer toy_library toy_work drawn (record { left = 5; right = 3 }) asking asked 1 4
      (5 ∷ 3 ∷ []) (signed_by 1 (codes "a") (challenge_text 1 3))
      (signed_by 2 (codes "b") (codes "[ 5 3 answer " ++ (10 ∷ []))) asking-Knows asked-Knows
      (omega arith) (omega arith) (omega arith) (omega arith) (omega arith) (omega arith)
      toy-IsHiding refl refl

answer_hate_challenge-zero_example :
    answer_hate_challenge toy_library toy_work asked
      (signed_by 1 (codes "a") (challenge_text 0 1))
      4
    ≡ failed
unfolding generate_hate_challenge sign_node node_cons build Cons.step take_arg bstr catbstr
    value_text decimal
answer_hate_challenge-zero_example =
    answer_hate_challenge-zero toy_library toy_work drawn (record { left = 5; right = 1 }) asking
      asked 4 (5 ∷ 1 ∷ []) (signed_by 1 (codes "a") (challenge_text 0 1)) asking-Knows (omega arith)
      (omega arith) (omega arith) (omega arith) refl refl
