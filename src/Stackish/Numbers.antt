-- ===== src/Stackish/Numbers.antt =====
-- Numbers printed by src/stackish/node.c and read back.
use utu.Prelude.{
  ℕ, zero, suc, ◌+◌, ◌*◌, ◌/◌, ◌%◌, ◌^◌, ◌<◌, ◌≡◌, refl, ap, ap₂, ◌∙◌, true, false, some, [], ◌∷◌,
  ◌++◌, ltb, length, length-append, arith, append_assoc, Bool-cases, inl, inr, lt→ltb, ==_refl,
}
use native.Mathlib.Nat.{pow-succ'}
use utu.Stackish.Node.{Bytes, number}
use utu.Stackish.Parser.{digits_from, strtoul, number_from, is_digit}
use utu.Stackish.Text.{All, IsDigitByte, IsNumeral}
use utu.Stackish.Print.{decimal}

digit : (m : ℕ) → is_digit (b'0' + m % 10) ≡ true
digit m = ground arith

digits_from-digit :
    (v c m : ℕ) (tail : Bytes)
    → digits_from v c ((b'0' + m % 10) ∷ tail) ≡ digits_from (v * 10 + m % 10) (suc c) tail
unfolding digits_from
digits_from-digit v c m tail = rw (digit m) (ap (λ x. digits_from x (suc c) tail) (omega arith))

fewer : (d n : ℕ) → n < 10 ^ suc d → n / 10 < 10 ^ d
fewer d n h = omega (arith, pow-succ' 10 d)

more_digits : (d n : ℕ) → n < 10 ^ suc d → ltb n 10 ≡ false → 0 < d
more_digits zero n h e = absurd (ground arith)
more_digits (suc d) n h e = omega arith

digits_from-decimal :
    (d n : ℕ) (tail : Bytes)
    → 0 < d
    → n < 10 ^ d
    → digits_from 0 0 (decimal d n ++ tail) ≡ digits_from n (length (decimal d n)) tail
unfolding decimal
digits_from-decimal zero n tail p h = absurd (omega arith)
digits_from-decimal (suc d) n tail p h = elim (Bool-cases (ltb n 10)) [
  | inl e ↦ rw e (digits_from-digit 0 0 n tail ∙ ap (λ x. digits_from x 1 tail) (ground arith))
  | inr e ↦
      let low : Bytes = (b'0' + n % 10) ∷ [] in
      let high = decimal d (n / 10) in
      rw e (
        ap (digits_from 0 0) (append_assoc high low tail)
        ∙ digits_from-decimal d (n / 10) (low ++ tail) (more_digits d n h e) (fewer d n h)
        ∙ digits_from-digit (n / 10) (length high) n tail
        ∙ ap₂ (λ x k. digits_from x k tail) (omega arith) (omega (arith, length-append high low)))
]

-- `strtoul` reads the number up to a byte that is no digit.
pub strtoul-decimal :
    (n c : ℕ) (rest : Bytes)
    → n < 2 ^ 64
    → is_digit c ≡ false
    → strtoul (decimal 20 n ++ (c ∷ rest)) ≡ (n, length (decimal 20 n), false)
unfolding strtoul digits_from
strtoul-decimal n c rest h d =
    rw (digits_from-decimal 20 n (c ∷ rest) (omega arith) (omega arith), d, lt→ltb n (2 ^ 64) h)
      refl

All-append : (P : ℕ → Type 0) (xs ys : Bytes) → All P xs → All P ys → All P (xs ++ ys)
All-append P [] ys a b = b
All-append P (x ∷ xs) ys a b = (a.0, All-append P xs ys a.1 b)

IsNumeral-append : (xs ys : Bytes) → IsNumeral xs → All IsDigitByte ys → IsNumeral (xs ++ ys)
IsNumeral-append [] ys a b = absurd a
IsNumeral-append (x ∷ xs) ys a b = (a.0, All-append IsDigitByte xs ys a.1 b)

digit-IsDigitByte : (n : ℕ) → IsDigitByte (b'0' + n % 10)
digit-IsDigitByte n = ((omega arith), digit n)

pub decimal-IsNumeral : (d n : ℕ) → IsNumeral (decimal (suc d) n)
unfolding decimal
decimal-IsNumeral zero n = elim (Bool-cases (ltb n 10)) [
  | inl e ↦ rw e (digit-IsDigitByte n, tt)
  | inr e ↦ rw e (digit-IsDigitByte n, tt)
]
decimal-IsNumeral (suc d) n = elim (Bool-cases (ltb n 10)) [
  | inl e ↦ rw e (digit-IsDigitByte n, tt)
  | inr e ↦ rw e (
      IsNumeral-append (decimal (suc d) (n / 10)) ((b'0' + n % 10) ∷ [])
        (decimal-IsNumeral d (n / 10)) (digit-IsDigitByte n, tt))
]

-- `strtoull` on a number that was printed with a space behind it reads that number, and stops at
-- the space, so that `Node_from_str` accepts it; this holds for every `uint64_t`.
pub number_from-decimal :
    (n : ℕ) (rest : Bytes)
    → n < 2 ^ 64
    → number_from (decimal 20 n ++ (b' ' ∷ rest)) (length (decimal 20 n)) ≡ some (number n)
unfolding number_from strtoul
number_from-decimal n rest h =
    rw
      (
        digits_from-decimal 20 n (b' ' ∷ rest) (omega arith) (omega arith),
        lt→ltb n (2 ^ 64) h,
        ==_refl (length (decimal 20 n)),
      )
      refl
