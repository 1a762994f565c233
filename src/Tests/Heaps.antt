-- ===== src/Tests/Heaps.antt =====
-- The heap, with a sort of its own.
use Prim.Native.Nat.{lt, eq, gt}
use utu.Prelude.{
  ℕ, suc, ◌+◌, ◌^◌, ◌<◌, ◌≤◌, ◌≡◌, ◌⊎◌, refl, Option, none, some, List, [], ◌∷◌, ◌>>=◌, length,
  get_or, compare, Ordering, arith, ap, ◌∙◌,
}
use utu.Heap.{Heap, Sort, add, delete, find}
use utu.Heap.Find.{IsAt, Returns, delete-Fits}
use utu.Heap.Keeps.{IsBag, find-sorted}
use utu.Heap.Drops.{Loses, delete-Loses}
use utu.Heap.Pointers.{void_ptr_compare, create_pointers, delete-far}

abbrev pub insert : (ℕ → ℕ → Ordering) → ℕ → List ℕ → List ℕ
insert c x [] = x ∷ []
insert c x (y ∷ ys) = elim (c x y) [ lt ↦ x ∷ y ∷ ys | eq ↦ x ∷ y ∷ ys | gt ↦ y ∷ insert c x ys ]

abbrev pub by_insertion : Sort
by_insertion c [] = []
by_insertion c (x ∷ xs) = insert c x (by_insertion c xs)

length-insert :
    (c : ℕ → ℕ → Ordering) (x : ℕ) (xs : List ℕ) → length (insert c x xs) ≡ suc (length xs)
length-insert c x [] = refl
length-insert c x (y ∷ ys) = at (c x y) (length-insert c x ys)
  where
    at :
        (o : Ordering)
        → length (insert c x ys) ≡ suc (length ys)
        → length (elim o [ lt ↦ x ∷ y ∷ ys | eq ↦ x ∷ y ∷ ys | gt ↦ y ∷ insert c x ys ])
          ≡ suc (suc (length ys))
    at lt e = refl
    at eq e = refl
    at gt e = ap suc e

pub length-by_insertion :
    (c : ℕ → ℕ → Ordering) (xs : List ℕ) → length (by_insertion c xs) ≡ length xs
length-by_insertion c [] = refl
length-by_insertion c (x ∷ xs) =
    length-insert c x (by_insertion c xs) ∙ ap suc (length-by_insertion c xs)

-- A heap that is full.
abbrev full : Heap
full = record { last = 2; size = 2; members = 4 ∷ 7 ∷ []; compare = compare }

abbrev sought : Option (Heap × ℕ) → Option (ℕ × ℕ)
sought none = none
sought (some (h, n)) = find 7 h >>= λ i. some (i, n)

added : sought (add by_insertion 5 full) ≡ some (2, 3)
unfolding add find
added = refl

delete-Fits_example :
    (i : ℕ) × (find 4 full ≡ some i)
    × ((i < 2 × Returns (delete 4 full) 1 1) ⊎ (2 ≤ i × (delete 4 full ≡ some (full, 0))))
delete-Fits_example = delete-Fits 4 full ((omega arith), refl, (omega arith)) (omega arith)

delete-far_example :
    (add by_insertion (16 + 2 ^ 32) create_pointers >>= λ (h, n). delete 16 h)
    ≡ some (create_pointers, 1)
delete-far_example = delete-far by_insertion 16 (omega arith) (omega arith) refl

-- A bag of two pointers.
abbrev two : Heap
two = record {
  last = 2;
  size = 8;
  members = 4 ∷ 7 ∷ 0 ∷ 0 ∷ 0 ∷ 0 ∷ 0 ∷ 0 ∷ [];
  compare = void_ptr_compare;
}

two-IsBag : IsBag two
two-IsBag = (
  (omega arith, refl, omega arith),
  refl,
  (((omega arith), tt), (tt, tt)),
  ((omega arith, omega arith), ((omega arith, omega arith), tt)),
)

delete-Loses_example : (g : Heap) × (n : ℕ) × (delete 7 two ≡ some (g, n)) × Loses 7 two g
delete-Loses_example = delete-Loses 7 two (omega arith, omega arith) two-IsBag

find-sorted_example :
    (i : ℕ) × (find 7 two ≡ some i)
    × ((i < 2 × (get_or two.members i 0 ≡ 7)) ⊎ ((i ≡ 2) × ((j : ℕ) → ¬ IsAt (λ n. n) two 7 j)))
find-sorted_example = find-sorted 7 two (omega arith, omega arith) two-IsBag

find_null : find 0 two ≡ none
unfolding find
find_null = refl
