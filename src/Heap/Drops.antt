-- ===== src/Heap/Drops.antt =====
-- `Heap_delete` of src/hub/heap.c on heaps of pointers, as a change of a bag.
use utu.Prelude.{
  ℕ, suc, ◌+◌, ◌-◌, ◌/◌, ◌≤◌, ◌<◌, ◌≡◌, inl, inr, refl, sym, ap, ◌∙◌, subst, Bool, true, false,
  some, List, ◌++◌, ◌==◌, ltb, take, drop, set, get_or, length, length-take, length-append,
  length-drop, take-append, arith, Bool-cases, lt→ltb, ◌&&◌,
}
use utu.Heap.{Heap, find, place_of, resize, delete, valid, heap_size}
use utu.Heap.Find.{IsAt, place_of-RanksWith, Fits, resized-length, removed-length}
use utu.Heap.Bags.{
  times, Every, IsAscending, without, times-without, Every-without, without-IsAscending,
  times-absent, take-set, take-removed,
}
use utu.Heap.Placed.{listed, length-listed, listed_at, resized, listed-resized, require_pos}
use utu.Heap.Keeps.{IsPointer, IsBag, one_if, bag-IsSorted, bag-RanksWith}

-- What deleting makes of a heap: the members of another with one less, if it was there.
abbrev pub Loses : ℕ → Heap → Heap → Type 0
Loses elem h g = IsBag g × ((x : ℕ) → times x (listed g) ≡ times x (listed h) - one_if x elem)

abbrev removed : ℕ → Heap → Heap
removed i h = record h {
  last = h.last - 1;
  members =
      set
        (take i h.members
          ++ take (h.last - 1 - i) (drop (i + 1) h.members)
          ++ drop (h.last - 1) h.members)
        (h.last - 1) 0;
}

listed-removed :
    (i : ℕ) (h : Heap) → Fits h → i < h.last → listed (removed i h) ≡ without i (listed h)
listed-removed i h f l =
    take-set (h.last - 1) 0 (front ++ drop (h.last - 1) h.members)
    ∙ ap (λ n. take n (front ++ drop (h.last - 1) h.members)) size
    ∙ take-append front (drop (h.last - 1) h.members)
    ∙ ap (λ j. take i h.members ++ take (h.last - 1 - i) (drop j h.members)) next
    ∙ take-removed i (h.last - 1 - i) (h.last - 1) h.members (omega arith)
    ∙ ap (λ n. without i (take n h.members)) all
  where
    front : List ℕ
    front = take i h.members ++ take (h.last - 1 - i) (drop (i + 1) h.members)

    size : h.last - 1 ≡ length front
    size = omega (
      arith,
      length-append (take i h.members) (take (h.last - 1 - i) (drop (i + 1) h.members)),
      length-take i h.members,
      length-take (h.last - 1 - i) (drop (i + 1) h.members),
      length-drop (i + 1) h.members,
    )

    next : i + 1 ≡ suc i
    next = omega arith

    all : suc (h.last - 1) ≡ h.last
    all = omega arith

removed-Loses :
    (i elem : ℕ) (h : Heap)
    → IsBag h
    → i < h.last
    → get_or h.members i 0 ≡ elem
    → Loses elem h (removed i h)
removed-Loses i elem h b l at = (
  (
    ((omega arith), removed-length i h.last h.members l (omega arith) ∙ b.0.1, omega arith),
    b.1,
    subst IsAscending (sym same) (without-IsAscending i (listed h) b.2),
    subst (Every IsPointer) (sym same) (Every-without IsPointer i (listed h) b.3),
  ),
  counts,
)
  where
    same : listed (removed i h) ≡ without i (listed h)
    same = listed-removed i h b.0 l

    counts : (x : ℕ) → times x (listed (removed i h)) ≡ times x (listed h) - one_if x elem
    counts x = omega (
      arith,
      ap (times x) same,
      times-without x i (listed h) (omega (arith, length-listed h b.0)),
      ap (one_if x) (listed_at h i l ∙ at),
    )

abbrev shrinks : Heap → Bool
shrinks g = ltb heap_size g.last && ltb g.last (g.size / 2)

resized-IsBag : (size : ℕ) (g : Heap) → g.last ≤ size → 0 < size → IsBag g → IsBag (resized size g)
resized-IsBag size g l p b = (
  (l, resized-length size g.size g.members b.0.1, p),
  b.1,
  subst IsAscending (sym same) b.2,
  subst (Every IsPointer) (sym same) b.3,
)
  where
    same : listed (resized size g) ≡ listed g
    same = listed-resized g size l (omega arith)

resized-Loses :
    (size elem : ℕ) (h g : Heap)
    → g.last ≤ size
    → 0 < size
    → Loses elem h g
    → Loses elem h (resized size g)
resized-Loses size elem h g l p (bag, counts) = (
  resized-IsBag size g l p bag,
  λ x. ap (times x) (listed-resized g size l (omega arith)) ∙ counts x,
)

delete-found :
    (elem : ℕ) (h : Heap)
    → 0 < elem
    → IsBag h
    → place_of elem h < h.last
    → get_or h.members (place_of elem h) 0 ≡ elem
    → (g : Heap) × (n : ℕ) × (delete elem h ≡ some (g, n)) × Loses elem h g
unfolding delete find resize
delete-found elem h p b l at = elim (Bool-cases (shrinks less)) [
  | inl e ↦ (
    resized (h.size / 2) less,
    1,
    rw (require_pos elem p, inside, e, require_pos (h.size / 2) (half e)) refl,
    resized-Loses (h.size / 2) elem h less (small e) (half e) loses,
  )
  | inr e ↦ (less, 1, rw (require_pos elem p, inside, e) refl, loses)
]
  where
    less : Heap
    less = removed (place_of elem h) h

    loses : Loses elem h less
    loses = removed-Loses (place_of elem h) elem h b l at

    inside : valid h (place_of elem h) ≡ true
    inside = lt→ltb (place_of elem h) h.last l

    small : shrinks less ≡ true → h.last - 1 ≤ h.size / 2
    small e = ground arith

    half : shrinks less ≡ true → 0 < h.size / 2
    half e = ground arith

absent :
    (elem : ℕ) (h : Heap)
    → Fits h
    → ((i : ℕ) → ¬ IsAt (λ n. n) h elem i)
    → times elem (listed h) ≡ 0
absent elem h f miss = times-absent elem (listed h) (λ i l e.
    let size = length-listed h f in
    let inside : i < h.last = omega arith in miss i (inside, sym (listed_at h i inside) ∙ e))

-- Heap_delete of a pointer that is not null and lies below 2 ^ 31, on a heap that compares by
-- Heap_void_ptr_compare and whose members are such pointers in ascending order, takes it out of the
-- bag of members once, if it is there, and keeps the order.
pub delete-Loses :
    (elem : ℕ) (h : Heap)
    → IsPointer elem
    → IsBag h
    → (g : Heap) × (n : ℕ) × (delete elem h ≡ some (g, n)) × Loses elem h g
unfolding delete find
delete-Loses elem h p b =
    elim (place_of-RanksWith (λ n. n) h elem (bag-RanksWith h elem b p) (bag-IsSorted h b)) [
      | inl at ↦ delete-found elem h p.0 b at.0 at.1
      | inr miss ↦ (
        h,
        0,
        rw (require_pos elem p.0, outside miss.0) refl,
        (b, λ x. none_lost x (absent elem h b.0 miss.1)),
      )
    ]
  where
    outside : place_of elem h ≡ h.last → valid h (place_of elem h) ≡ false
    outside e = ground (arith, e)

    zero_lost : (n k : ℕ) → n ≡ 0 → n ≡ n - k
    zero_lost n k z = omega arith

    same : (x : ℕ) → (x == elem) ≡ true → x ≡ elem
    same x q = ground arith

    none_lost :
        (x : ℕ)
        → times elem (listed h) ≡ 0
        → times x (listed h) ≡ times x (listed h) - one_if x elem
    none_lost x e = elim (Bool-cases (x == elem)) [
      | inl q ↦
          zero_lost (times x (listed h)) (one_if x elem)
            (ap (λ y. times y (listed h)) (same x q) ∙ e)
      | inr q ↦ rw q (omega arith)
    ]
