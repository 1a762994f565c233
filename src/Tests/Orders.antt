-- ===== src/Tests/Orders.antt =====
-- The comparison of strings of the tests, and what the insertion sort does by an order.
use Prim.Native.Nat.{lt, eq, gt}
use utu.Prelude.{ℕ, ◌≡◌, refl, List, [], ◌∷◌, compare, Ordering, arith}
use utu.Stackish.Node.{Bytes}
use utu.Heap.Bags.{Every}
use utu.Routing.Named.{IsOrder, AscendsBy}
use utu.Routing.Children.{Orders}
use utu.Tests.Heaps.{insert, by_insertion}
use utu.Tests.Sorting.{Every-insert}

abbrev pub compare_bytes : Bytes → Bytes → Ordering
compare_bytes [] [] = eq
compare_bytes [] (y ∷ ys) = lt
compare_bytes (x ∷ xs) [] = gt
compare_bytes (x ∷ xs) (y ∷ ys) = elim (compare x y) [
  | lt ↦ lt
  | eq ↦ compare_bytes xs ys
  | gt ↦ gt
]

same : (a : Bytes) → compare_bytes a a ≡ eq
same [] = refl
same (x ∷ xs) = ground (arith, same xs)

opposite : (a b : Bytes) → compare_bytes a b ≡ gt → ¬ (compare_bytes b a ≡ gt)
opposite [] [] e = λ f. ground (arith, e)
opposite [] (y ∷ ys) e = λ f. ground (arith, e)
opposite (x ∷ xs) [] e = λ f. ground (arith, f)
opposite (x ∷ xs) (y ∷ ys) e = λ f. ground (arith, opposite xs ys, e, f)

equal : (a b c : Bytes) → compare_bytes a c ≡ eq → compare_bytes b c ≡ eq → compare_bytes a b ≡ eq
equal [] [] c e f = refl
equal [] (y ∷ b) [] e f = ground (arith, f)
equal [] (y ∷ b) (z ∷ c) e f = ground (arith, e)
equal (x ∷ a) b [] e f = ground (arith, e)
equal (x ∷ a) [] (z ∷ c) e f = ground (arith, f)
equal (x ∷ a) (y ∷ b) (z ∷ c) e f = ground (arith, equal a b c, e, f)

below :
    (a b c : Bytes) → ¬ (compare_bytes a b ≡ gt) → compare_bytes b c ≡ lt → compare_bytes a c ≡ lt
below a [] [] n e = ground (arith, e)
below a (y ∷ b) [] n e = ground (arith, e)
below [] b (z ∷ c) n e = refl
below (x ∷ a) [] (z ∷ c) n e = absurd (n refl)
below (x ∷ a) (y ∷ b) (z ∷ c) n e = ground (arith, below a b c, n, e)

above :
    (a b c : Bytes) → ¬ (compare_bytes a b ≡ gt) → compare_bytes a c ≡ gt → compare_bytes b c ≡ gt
above [] b [] n e = ground (arith, e)
above [] b (z ∷ c) n e = ground (arith, e)
above (x ∷ a) [] c n e = absurd (n refl)
above (x ∷ a) (y ∷ b) [] n e = refl
above (x ∷ a) (y ∷ b) (z ∷ c) n e = ground (arith, above a b c, n, e)

pub compare_bytes-IsOrder : IsOrder compare_bytes
compare_bytes-IsOrder = record {
  same = same;
  opposite = opposite;
  equal = equal;
  below = below;
  above = above;
}

module _ (c : ℕ → ℕ → Ordering) (o : IsOrder c) where
  all_above :
      (x y : ℕ) (ys : List ℕ)
      → ¬ (c x y ≡ gt)
      → Every (λ z. ¬ (c y z ≡ gt)) ys
      → Every (λ z. ¬ (c x z ≡ gt)) ys
  all_above x y [] n a = tt
  all_above x y (z ∷ ys) n a = ((λ e. a.0 (o.above x y z n e)), all_above x y ys n a.1)

  insert-AscendsBy : (x : ℕ) (ys : List ℕ) → AscendsBy c ys → AscendsBy c (insert c x ys)
  insert-AscendsBy x [] a = (tt, tt)
  insert-AscendsBy x (y ∷ ys) a = at (c x y) refl (insert-AscendsBy x ys a.1)
    where
      at :
          (r : Ordering)
          → c x y ≡ r
          → AscendsBy c (insert c x ys)
          → AscendsBy c (elim r [ lt ↦ x ∷ y ∷ ys | eq ↦ x ∷ y ∷ ys | gt ↦ y ∷ insert c x ys ])
      at lt e rest = ((not_gt, all_above x y ys not_gt a.0), a)
        where
          not_gt : ¬ (c x y ≡ gt)
          not_gt = λ f. absurd (ground (arith, e, f))
      at eq e rest = ((not_gt, all_above x y ys not_gt a.0), a)
        where
          not_gt : ¬ (c x y ≡ gt)
          not_gt = λ f. absurd (ground (arith, e, f))
      at gt e rest = (Every-insert (λ z. ¬ (c y z ≡ gt)) c x ys (o.opposite x y e) a.0, rest)

  by_insertion-AscendsBy : (xs : List ℕ) → AscendsBy c (by_insertion c xs)
  by_insertion-AscendsBy [] = tt
  by_insertion-AscendsBy (x ∷ xs) =
      insert-AscendsBy x (by_insertion c xs) (by_insertion-AscendsBy xs)

pub by_insertion-Orders : Orders by_insertion
by_insertion-Orders c o xs = by_insertion-AscendsBy c o xs
