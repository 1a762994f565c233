-- ===== src/Stackish/Classes.antt =====
-- What the tables do with a class of bytes, checked for every byte of the class.
use utu.Prelude.{
  ℕ, zero, suc, ◌≡◌, ◌<◌, refl, Bool, true, false, ◌&&◌, ◌||◌, List, [], ◌∷◌, ◌==◌, leb, not,
  if◌then◌else◌, arith, &&-eq-true, ==→eq, ap₂,
}
use utu.Stackish.Parser.{is_digit}
use utu.Stackish.Tables.{Action, next}

-- Whether `p` holds of the bytes below `n`.
holds_to : (ℕ → Bool) → ℕ → Bool
holds_to p zero = true
holds_to p (suc n) = let below = holds_to p n in if p n then below else false

of_holds_to : (p : ℕ → Bool) (n c : ℕ) → c < n → holds_to p n ≡ true → p c ≡ true
unfolding holds_to
of_holds_to p zero c lt h = absurd (omega arith)
of_holds_to p (suc n) c lt h = ground (arith, of_holds_to p n c)

abbrev pub is_alpha : ℕ → Bool
is_alpha c = (leb b'a' c && leb c b'z') || (leb b'A' c && leb c b'Z')

-- `alnum | '-' | '_' | '.' | ':'`
abbrev pub is_word_byte : ℕ → Bool
is_word_byte c =
    is_alpha c
    || (leb b'0' c && leb c b'9')
    || (c == b'-')
    || (c == b'_')
    || (c == b'.')
    || (c == b':')

-- A string ends at a quote, and C's text at a zero.
abbrev pub in_string : ℕ → Bool
in_string c = if c == 0 then false else not (c == b'"')

abbrev is_nil : List Action → Bool
is_nil [] = true
is_nil _ = false

eq_nil : (l : List Action) → is_nil l ≡ true → l ≡ []
eq_nil [] h = refl
eq_nil (a ∷ l) h = cc

abbrev is_mark : List Action → Bool
is_mark (Action.mark_here ∷ []) = true
is_mark _ = false

eq_mark : (l : List Action) → is_mark l ≡ true → l ≡ Action.mark_here ∷ []
eq_mark (Action.mark_here ∷ []) h = refl
eq_mark _ h = cc

-- Every byte of the class leads from the state to the target, with actions that pass a test.
abbrev leads : (List Action → Bool) → (ℕ → Bool) → ℕ → ℕ → ℕ → Bool
leads test inside from target c =
    if inside c then (next from c).0 == target && test (next from c).1 else true

of_leads :
    (test : List Action → Bool) (acts : List Action) (inside : ℕ → Bool) (from target c : ℕ)
    → ((l : List Action) → test l ≡ true → l ≡ acts)
    → leads test inside from target c ≡ true
    → inside c ≡ true
    → next from c ≡ (target, acts)
of_leads test acts inside from target c k h i =
    let both : ((next from c).0 == target && test (next from c).1) ≡ true = rw i at h in
    let parts = &&-eq-true ((next from c).0 == target) (test (next from c).1) both in
    ap₂ (λ n l. (n, l)) (==→eq (next from c).0 target parts.0) (k (next from c).1 parts.1)

-- A class that leads to the target without an action, and one that marks its place.
quiet :
    (inside : ℕ → Bool) (from target c : ℕ)
    → holds_to (leads is_nil inside from target) 256 ≡ true
    → c < 256
    → inside c ≡ true
    → next from c ≡ (target, [])
quiet inside from target c all w =
    of_leads is_nil [] inside from target c eq_nil
      (of_holds_to (leads is_nil inside from target) 256 c w all)

marks :
    (inside : ℕ → Bool) (from target c : ℕ)
    → holds_to (leads is_mark inside from target) 256 ≡ true
    → c < 256
    → inside c ≡ true
    → next from c ≡ (target, Action.mark_here ∷ [])
marks inside from target c all w =
    of_leads is_mark (Action.mark_here ∷ []) inside from target c eq_mark
      (of_holds_to (leads is_mark inside from target) 256 c w all)

pub next-attr_first : (c : ℕ) → c < 256 → is_alpha c ≡ true → next 9 c ≡ (12, [])
unfolding holds_to next
next-attr_first c = quiet is_alpha 9 12 c refl

pub next-attr_byte : (c : ℕ) → c < 256 → is_word_byte c ≡ true → next 12 c ≡ (12, [])
unfolding holds_to next
next-attr_byte c = quiet is_word_byte 12 12 c refl

pub next-word_first :
    (c : ℕ) → c < 256 → is_alpha c ≡ true → next 10 c ≡ (13, Action.mark_here ∷ [])
unfolding holds_to next
next-word_first c = marks is_alpha 10 13 c refl

pub next-word_byte : (c : ℕ) → c < 256 → is_word_byte c ≡ true → next 13 c ≡ (13, [])
unfolding holds_to next
next-word_byte c = quiet is_word_byte 13 13 c refl

pub next-number_first :
    (c : ℕ) → c < 256 → is_digit c ≡ true → next 10 c ≡ (14, Action.mark_here ∷ [])
unfolding holds_to next
next-number_first c = marks is_digit 10 14 c refl

pub next-number_byte : (c : ℕ) → c < 256 → is_digit c ≡ true → next 14 c ≡ (14, [])
unfolding holds_to next
next-number_byte c = quiet is_digit 14 14 c refl

pub next-string_first :
    (c : ℕ) → c < 256 → in_string c ≡ true → next 1 c ≡ (2, Action.mark_here ∷ [])
unfolding holds_to next
next-string_first c = marks in_string 1 2 c refl

pub next-string_byte : (c : ℕ) → c < 256 → in_string c ≡ true → next 2 c ≡ (2, [])
unfolding holds_to next
next-string_byte c = quiet in_string 2 2 c refl

pub next-length_first :
    (c : ℕ) → c < 256 → is_digit c ≡ true → next 3 c ≡ (4, Action.mark_here ∷ [])
unfolding holds_to next
next-length_first c = marks is_digit 3 4 c refl

pub next-length_byte : (c : ℕ) → c < 256 → is_digit c ≡ true → next 4 c ≡ (4, [])
unfolding holds_to next
next-length_byte c = quiet is_digit 4 4 c refl
