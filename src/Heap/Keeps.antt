-- ===== src/Heap/Keeps.antt =====
-- `Heap_add` and `Heap_find` of src/hub/heap.c on heaps of pointers that stand as a bag.
use utu.Prelude.{
  ℕ, ◌+◌, ◌^◌, ◌<◌, ◌≡◌, ◌⊎◌, inl, inr, sym, ap, ◌∙◌, subst, some, List, [], ◌∷◌, ◌++◌, ◌==◌,
  if◌then◌else◌, get_or, arith, Ordering, compare, Bool-cases,
}
use utu.Heap.{Heap, Sort, add, find, place_of}
use utu.Heap.Find.{IsAt, IsSorted, RanksWith, Fits, KeepsLength, place_of-RanksWith}
use utu.Heap.Pointers.{sign, void_ptr_compare}
use utu.Heap.Bags.{times, Every, IsAscending, times-append, Every-append, Every-at, ascending_at}
use utu.Heap.Placed.{listed, length-listed, listed_at, add-listed}

-- Pointers that are not null, and so near to each other that their differences are `int`s.
abbrev pub IsPointer : ℕ → Type 0
IsPointer x = (0 < x) × (x < 2 ^ 31)

abbrev pub IsBag : Heap → Type 0
IsBag h =
    Fits h × (h.compare ≡ void_ptr_compare) × IsAscending (listed h) × Every IsPointer (listed h)

-- What the sort does on pointers.
pub record IsSorting (by : Sort) : Type 0 where
  pub keeps_length : KeepsLength by
  pub keeps : (c : ℕ → ℕ → Ordering) (xs : List ℕ) (x : ℕ) → times x (by c xs) ≡ times x xs
  pub ascends : (xs : List ℕ) → Every IsPointer xs → IsAscending (by void_ptr_compare xs)

abbrev pub one_if : ℕ → ℕ → ℕ
one_if x y = if x == y then 1 else 0

pub compares : (x y : ℕ) → IsPointer x → IsPointer y → void_ptr_compare x y ≡ compare x y
unfolding void_ptr_compare sign
compares x y p q = ground arith

pub bag-IsSorted : (h : Heap) → IsBag h → IsSorted (λ n. n) h
bag-IsSorted h b i j l m =
    let size = length-listed h b.0 in
    let up = ascending_at i j (listed h) b.2 l (omega arith) in
    omega (arith, listed_at h i, listed_at h j)

pub bag-RanksWith : (h : Heap) (elem : ℕ) → IsBag h → IsPointer elem → RanksWith (λ n. n) h elem
bag-RanksWith h elem b p i l =
    let size = length-listed h b.0 in
    let at = Every-at IsPointer i (listed h) b.3 (omega arith) in
    ap (λ c. c (get_or h.members i 0) elem) b.1
    ∙ compares (get_or h.members i 0) elem (subst IsPointer (listed_at h i l) at) p

-- Every pointer of a list that has the same members.
pub Every-times : (P : ℕ → Type 0) (xs : List ℕ) → ((x : ℕ) → 0 < times x xs → P x) → Every P xs
Every-times P [] h = tt
Every-times P (x ∷ xs) h = (h x (ground arith), Every-times P xs (λ y l. h y (omega arith)))

pub times_of_every : (P : ℕ → Type 0) (xs : List ℕ) (x : ℕ) → Every P xs → 0 < times x xs → P x
times_of_every P [] x a l = absurd (omega arith)
times_of_every P (y ∷ xs) x a l = elim (Bool-cases (x == y)) [
  | inl e ↦ subst P (ground arith) a.0
  | inr e ↦ times_of_every P xs x a.1 (ground arith)
]

-- What adding makes of a heap: the members of another with one more.
abbrev pub Gains : ℕ → Heap → Heap → Type 0
Gains elem h g = IsBag g × ((x : ℕ) → times x (listed g) ≡ one_if x elem + times x (listed h))

pub times-added :
    (by : Sort) (elem : ℕ) (h g : Heap)
    → IsSorting by
    → listed g ≡ by h.compare (listed h ++ (elem ∷ []))
    → (x : ℕ) → times x (listed g) ≡ one_if x elem + times x (listed h)
times-added by elem h g law e x =
    ap (times x) e
    ∙ law.keeps h.compare (listed h ++ (elem ∷ [])) x
    ∙ omega (arith, times-append x (listed h) (elem ∷ []))

-- Each member that a heap has after adding satisfies what the members before and the new one do.
pub Every-added :
    (P : ℕ → Type 0) (by : Sort) (elem : ℕ) (h g : Heap)
    → IsSorting by
    → listed g ≡ by h.compare (listed h ++ (elem ∷ []))
    → Every P (listed h)
    → P elem
    → Every P (listed g)
Every-added P by elem h g law e a p = subst (Every P) (sym e) (
    Every-times P (by h.compare xs) (λ x l.
      times_of_every P xs x (Every-append P (listed h) (elem ∷ []) a (p, tt))
        (subst (λ n. 0 < n) (law.keeps h.compare xs x) l)))
  where
    xs : List ℕ
    xs = listed h ++ (elem ∷ [])

-- Heap_add of a pointer puts it into the bag of members once more than it was, and keeps the order.
pub add-Gains :
    (by : Sort) (elem : ℕ) (h : Heap)
    → IsSorting by
    → IsPointer elem
    → IsBag h
    → (g : Heap) × (add by elem h ≡ some (g, h.last + 1)) × Gains elem h g
add-Gains by elem h law p b =
    let (g, e, f, c, l) = add-listed by elem h law.keeps_length b.0 p.0 in
    let xs = listed h ++ (elem ∷ []) in
    let ascending = law.ascends xs (Every-append IsPointer (listed h) (elem ∷ []) b.3 (p, tt)) in
    (
      g,
      e,
      (
        (
          f,
          c ∙ b.1,
          subst IsAscending (sym l) (subst (λ o. IsAscending (by o xs)) (sym b.1) ascending),
          Every-added IsPointer by elem h g law l b.3 p,
        ),
        times-added by elem h g law l,
      ),
    )

-- `Heap_find` of a pointer that is not null and lies below 2 ^ 31, on a heap that compares by
-- `Heap_void_ptr_compare` and whose members are such pointers in ascending order, returns the index
-- of a member that is the pointer; where no member is, it returns `last`.
pub find-sorted :
    (elem : ℕ) (h : Heap)
    → IsPointer elem
    → IsBag h
    → (i : ℕ) × (find elem h ≡ some i)
      × ((i < h.last × (get_or h.members i 0 ≡ elem))
          ⊎ ((i ≡ h.last) × ((j : ℕ) → ¬ IsAt (λ n. n) h elem j)))
unfolding find
find-sorted elem h p b = (
  place_of elem h,
  (ground arith),
  place_of-RanksWith (λ n. n) h elem (bag-RanksWith h elem b p) (bag-IsSorted h b),
)
