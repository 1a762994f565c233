-- ===== src/Crypto/Challenge/Answered.antt =====
-- The search for the missing half of a challenge.
use utu.Prelude.{
  ℕ, zero, suc, ◌+◌, ◌≡◌, ◌<◌, refl, sym, ap, ap₂, ◌∙◌, subst, inl, inr, Bool-cases, true, some, [],
  ◌∷◌, arith, ◌==◌,
}
use utu.Prelude.Calls.{ok}
use utu.Stackish.Node.{Bytes}
use utu.Stackish.Decons.{same_bytes}
use utu.Crypto.Delivery.{same_bytes_refl}
use utu.Crypto.Challenge.{Work, search}

same_bytes_sound : (a b : Bytes) → same_bytes a b ≡ true → a ≡ b
same_bytes_sound [] [] h = refl
same_bytes_sound [] (_ ∷ _) h = cc
same_bytes_sound (_ ∷ _) [] h = cc
same_bytes_sound (x ∷ a) (y ∷ b) h = elim (Bool-cases (x == y)) [
  | inl e ↦ ap₂ (λ c t. c ∷ t) (ground arith) (same_bytes_sound a b (ground arith))
  | inr e ↦ absurd (ground arith)
]

-- Every nonce with a given left half has a hash, and only one right half has the hash in question.
pub record IsHiding (work : Work) (left right : ℕ) (hash : Bytes) : Type 0 where
  pub hash_of : ℕ → Bytes
  pub total : (r : ℕ) → work.hash_nonce (record { left = left; right = r }) ≡ some (hash_of r)
  pub hit : hash_of right ≡ hash
  pub alone : (r : ℕ) → hash_of r ≡ hash → r ≡ right

-- The search goes up to the right half and stops there.
pub search_lem :
    (work : Work) (hash : Bytes) (left right : ℕ)
    → IsHiding work left right hash
    → (rounds before : ℕ) (k : ℕ) → before + k ≡ right
    → k < rounds
    → search work hash left before rounds ≡ ok right
unfolding search
search_lem work hash left right h zero before k e l = absurd (omega arith)
search_lem work hash left right h (suc rounds) before zero e l =
    rw
      (
        h.total before,
        subst (λ t. same_bytes hash t ≡ true) (sym h.hit ∙ ap h.hash_of (sym here))
            (same_bytes_refl hash),
      )
      (ap (λ r. ok r) here)
  where
    here : before ≡ right
    here = omega arith
search_lem work hash left right h (suc rounds) before (suc k) e l =
    elim (Bool-cases (same_bytes hash (h.hash_of before))) [
      | inl s ↦
          rw (h.total before, s)
            (ap (λ r. ok r) (h.alone before (sym (same_bytes_sound hash (h.hash_of before) s))))
      | inr s ↦
          rw (h.total before, s)
            (search_lem work hash left right h rounds (before + 1) k (omega arith) (omega arith))
    ]
