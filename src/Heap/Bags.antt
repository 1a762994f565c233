-- ===== src/Heap/Bags.antt =====
-- The members of a heap as a bag of numbers in ascending order.
use utu.Prelude.{
  ℕ, zero, suc, ◌+◌, ◌≤◌, ◌<◌, ◌≡◌, refl, ap, List, [], ◌∷◌, ◌++◌, ◌==◌, if◌then◌else◌, take, drop,
  set, get_or, length, arith,
}

-- How often a number stands in a list.
abbrev pub times : ℕ → List ℕ → ℕ
times x [] = 0
times x (y ∷ ys) = (if x == y then 1 else 0) + times x ys

abbrev pub Every : (ℕ → Type 0) → List ℕ → Type 0
Every P [] = Unit {0}
Every P (x ∷ xs) = P x × Every P xs

abbrev pub IsAscending : List ℕ → Type 0
IsAscending [] = Unit {0}
IsAscending (x ∷ xs) = Every (λ y. x ≤ y) xs × IsAscending xs

-- A list without the member at a place.
abbrev pub without : ℕ → List ℕ → List ℕ
without i [] = []
without zero (x ∷ xs) = xs
without (suc i) (x ∷ xs) = x ∷ without i xs

pub times-append : (x : ℕ) (xs ys : List ℕ) → times x (xs ++ ys) ≡ times x xs + times x ys
times-append x [] ys = omega arith
times-append x (y ∷ xs) ys = omega (arith, times-append x xs ys)

pub times-without :
    (x i : ℕ) (xs : List ℕ)
    → i < length xs
    → (if x == get_or xs i 0 then 1 else 0) + times x (without i xs) ≡ times x xs
times-without x i [] h = absurd (omega arith)
times-without x zero (y ∷ xs) h = refl
times-without x (suc i) (y ∷ xs) h = omega (arith, times-without x i xs (omega arith))

pub Every-without : (P : ℕ → Type 0) (i : ℕ) (xs : List ℕ) → Every P xs → Every P (without i xs)
Every-without P i [] a = tt
Every-without P zero (x ∷ xs) a = a.1
Every-without P (suc i) (x ∷ xs) a = (a.0, Every-without P i xs a.1)

pub Every-append : (P : ℕ → Type 0) (xs ys : List ℕ) → Every P xs → Every P ys → Every P (xs ++ ys)
Every-append P [] ys a b = b
Every-append P (x ∷ xs) ys a b = (a.0, Every-append P xs ys a.1 b)

pub Every-take : (P : ℕ → Type 0) (n : ℕ) (xs : List ℕ) → Every P xs → Every P (take n xs)
Every-take P zero xs a = tt
Every-take P (suc n) [] a = tt
Every-take P (suc n) (x ∷ xs) a = (a.0, Every-take P n xs a.1)

pub without-IsAscending : (i : ℕ) (xs : List ℕ) → IsAscending xs → IsAscending (without i xs)
without-IsAscending i [] a = tt
without-IsAscending zero (x ∷ xs) a = a.1
without-IsAscending (suc i) (x ∷ xs) a =
    (Every-without (λ y. x ≤ y) i xs a.0, without-IsAscending i xs a.1)

pub Every-at :
    (P : ℕ → Type 0) (i : ℕ) (xs : List ℕ) → Every P xs → i < length xs → P (get_or xs i 0)
Every-at P i [] a h = absurd (omega arith)
Every-at P zero (x ∷ xs) a h = a.0
Every-at P (suc i) (x ∷ xs) a h = Every-at P i xs a.1 (omega arith)

pub ascending_at :
    (i j : ℕ) (xs : List ℕ) → IsAscending xs → i ≤ j → j < length xs → get_or xs i 0 ≤ get_or xs j 0
ascending_at i j [] a l h = absurd (omega arith)
ascending_at zero zero (x ∷ xs) a l h = omega arith
ascending_at zero (suc j) (x ∷ xs) a l h = Every-at (λ y. x ≤ y) j xs a.0 (omega arith)
ascending_at (suc i) zero (x ∷ xs) a l h = absurd (omega arith)
ascending_at (suc i) (suc j) (x ∷ xs) a l h = ascending_at i j xs a.1 (omega arith) (omega arith)

-- A number that does not stand at any place does not occur.
pub times-absent :
    (x : ℕ) (xs : List ℕ) → ((i : ℕ) → i < length xs → ¬ (get_or xs i 0 ≡ x)) → times x xs ≡ 0
times-absent x [] h = refl
times-absent x (y ∷ xs) h =
    ground (arith, h 0 (omega arith), times-absent x xs (λ i l. h (suc i) (omega arith)))

pub get_or-take : (n i : ℕ) (xs : List ℕ) → i < n → get_or (take n xs) i 0 ≡ get_or xs i 0
get_or-take zero i xs h = absurd (omega arith)
get_or-take (suc n) i [] h = refl
get_or-take (suc n) zero (x ∷ xs) h = refl
get_or-take (suc n) (suc i) (x ∷ xs) h = get_or-take n i xs (omega arith)

pub take-set : (n v : ℕ) (xs : List ℕ) → take n (set xs n v) ≡ take n xs
take-set zero v xs = refl
take-set (suc n) v [] = refl
take-set (suc n) v (x ∷ xs) = ap (λ l. x ∷ l) (take-set n v xs)

pub take-set_next :
    (n v : ℕ) (xs : List ℕ) → n < length xs → take (suc n) (set xs n v) ≡ take n xs ++ (v ∷ [])
take-set_next n v [] h = absurd (omega arith)
take-set_next zero v (x ∷ xs) h = refl
take-set_next (suc n) v (x ∷ xs) h = ap (λ l. x ∷ l) (take-set_next n v xs (omega arith))

-- The first members of what `memmove` leaves.
pub take-removed :
    (i k n : ℕ) (xs : List ℕ)
    → n ≡ i + k
    → take i xs ++ take k (drop (suc i) xs) ≡ without i (take (suc n) xs)
take-removed zero zero n [] h = refl
take-removed zero (suc k) n [] h = refl
take-removed (suc i) zero n [] h = refl
take-removed (suc i) (suc k) n [] h = refl
take-removed zero k n (x ∷ xs) h = ap (λ j. take j xs) (omega arith)
take-removed (suc i) k zero (x ∷ xs) h = absurd (omega arith)
take-removed (suc i) k (suc n) (x ∷ xs) h = ap (λ l. x ∷ l) (take-removed i k n xs (omega arith))

pub take_front :
    (n size : ℕ) (xs ys : List ℕ)
    → n ≤ size
    → n ≤ length xs
    → take n (take size xs ++ ys) ≡ take n xs
take_front zero size xs ys h l = refl
take_front (suc n) zero xs ys h l = absurd (omega arith)
take_front (suc n) (suc size) [] ys h l = absurd (omega arith)
take_front (suc n) (suc size) (x ∷ xs) ys h l =
    ap (λ t. x ∷ t) (take_front n size xs ys (omega arith) (omega arith))
