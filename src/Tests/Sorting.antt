-- ===== src/Tests/Sorting.antt =====
-- The insertion sort of the tests on pointers.
use Prim.Native.Nat.{lt, eq, gt}
use utu.Prelude.{
  ℕ, ◌+◌, ◌≤◌, ◌<◌, ◌≡◌, refl, sym, ap, ◌∙◌, subst, List, [], ◌∷◌, compare, Ordering, arith,
}
use utu.Heap.Pointers.{void_ptr_compare}
use utu.Heap.Bags.{times, Every, IsAscending}
use utu.Heap.Keeps.{IsPointer, IsSorting, compares, one_if, Every-times, times_of_every}
use utu.Tests.Heaps.{insert, by_insertion, length-by_insertion}

add_swap : (a b n : ℕ) → a + (b + n) ≡ b + (a + n)
add_swap a b n = omega arith

times-insert :
    (c : ℕ → ℕ → Ordering) (x : ℕ) (ys : List ℕ) (z : ℕ)
    → times z (insert c x ys) ≡ one_if z x + times z ys
times-insert c x [] z = refl
times-insert c x (y ∷ ys) z = at (c x y) (times-insert c x ys z)
  where
    at :
        (o : Ordering)
        → times z (insert c x ys) ≡ one_if z x + times z ys
        → times z (elim o [ lt ↦ x ∷ y ∷ ys | eq ↦ x ∷ y ∷ ys | gt ↦ y ∷ insert c x ys ])
          ≡ one_if z x + times z (y ∷ ys)
    at lt e = refl
    at eq e = refl
    at gt e = ap (λ n. one_if z y + n) e ∙ add_swap (one_if z y) (one_if z x) (times z ys)

times-by_insertion :
    (c : ℕ → ℕ → Ordering) (xs : List ℕ) (z : ℕ) → times z (by_insertion c xs) ≡ times z xs
times-by_insertion c [] z = refl
times-by_insertion c (x ∷ xs) z =
    times-insert c x (by_insertion c xs) z ∙ ap (λ n. one_if z x + n) (times-by_insertion c xs z)

pub Every-insert :
    (P : ℕ → Type 0) (c : ℕ → ℕ → Ordering) (x : ℕ) (ys : List ℕ)
    → P x
    → Every P ys
    → Every P (insert c x ys)
Every-insert P c x [] p a = (p, tt)
Every-insert P c x (y ∷ ys) p a = at (c x y) (Every-insert P c x ys p a.1)
  where
    at :
        (o : Ordering)
        → Every P (insert c x ys)
        → Every P (elim o [ lt ↦ x ∷ y ∷ ys | eq ↦ x ∷ y ∷ ys | gt ↦ y ∷ insert c x ys ])
    at lt rest = (p, a)
    at eq rest = (p, a)
    at gt rest = (a.0, rest)

above : (x y : ℕ) (ys : List ℕ) → x ≤ y → Every (λ z. y ≤ z) ys → Every (λ z. x ≤ z) ys
above x y [] l a = tt
above x y (z ∷ ys) l a = (omega (arith, a.0), above x y ys l a.1)

insert-IsAscending :
    (x : ℕ) (ys : List ℕ)
    → IsPointer x
    → Every IsPointer ys
    → IsAscending ys
    → IsAscending (insert void_ptr_compare x ys)
insert-IsAscending x [] p a s = (tt, tt)
insert-IsAscending x (y ∷ ys) p a s =
    at (void_ptr_compare x y) (sym (compares x y p a.0)) (insert-IsAscending x ys p a.1 s.1)
  where
    low : x ≤ y → IsAscending (x ∷ y ∷ ys)
    low l = ((l, above x y ys l s.0), s)

    at :
        (o : Ordering)
        → compare x y ≡ o
        → IsAscending (insert void_ptr_compare x ys)
        → IsAscending
            (elim o [ lt ↦ x ∷ y ∷ ys | eq ↦ x ∷ y ∷ ys | gt ↦ y ∷ insert void_ptr_compare x ys ])
    at lt e rest = low (ground arith)
    at eq e rest = low (ground arith)
    at gt e rest = (Every-insert (λ z. y ≤ z) void_ptr_compare x ys (ground arith) s.0, rest)

by_insertion-IsAscending :
    (xs : List ℕ) → Every IsPointer xs → IsAscending (by_insertion void_ptr_compare xs)
by_insertion-IsAscending [] a = tt
by_insertion-IsAscending (x ∷ xs) a =
    insert-IsAscending x (by_insertion void_ptr_compare xs) a.0
      (Every-times IsPointer (by_insertion void_ptr_compare xs) (λ y l.
        times_of_every IsPointer xs y a.1
          (subst (λ n. 0 < n) (times-by_insertion void_ptr_compare xs y) l)))
      (by_insertion-IsAscending xs a.1)

pub by_insertion-IsSorting : IsSorting by_insertion
by_insertion-IsSorting = record {
  keeps_length = length-by_insertion;
  keeps = times-by_insertion;
  ascends = by_insertion-IsAscending;
}
