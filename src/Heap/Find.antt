-- ===== src/Heap/Find.antt =====
-- `Heap_find` and `Heap_delete` of src/hub/heap.c on a sorted heap.
use utu.Prelude.{
  ℕ, ◌+◌, ◌-◌, ◌*◌, ◌/◌, ◌≤◌, ◌<◌, ◌≡◌, refl, sym, ap, ◌∙◌, ◌⊎◌, inl, inr, true, false, Option,
  none, some, ltb, get_or, is_some, Bool-cases, arith, Ordering, compare, length, length-set,
  length-append, length-take, length-drop, length-replicate, List, ◌++◌, take, drop, set, replicate,
}
use Prim.Native.Nat.{lt, eq, gt}
use utu.Heap.{Heap, Sort, search, place_of, find, resize, sort, add, delete}
use utu.Heap.Search.{Cut, search_found, search_complete}

abbrev pub IsSorted : (ℕ → ℕ) → Heap → Type 0
IsSorted rank h =
    (i j : ℕ) → i ≤ j → j < h.last → rank (get_or h.members i 0) ≤ rank (get_or h.members j 0)

abbrev pub IsAt : (ℕ → ℕ) → Heap → ℕ → ℕ → Type 0
IsAt rank h elem i = (i < h.last) × (rank (get_or h.members i 0) ≡ rank elem)

compare-eq : (m n : ℕ) → compare m n ≡ eq → m ≡ n
compare-eq m n e = ground arith

eq-compare : (m n : ℕ) → m ≡ n → compare m n ≡ eq
eq-compare m n e = ground arith

cut-ranks :
    (m n k : ℕ)
    → m ≤ n
    → (compare n k ≡ lt → compare m k ≡ lt) × (compare m k ≡ gt → compare n k ≡ gt)
cut-ranks m n k l = ((λ e. ground arith), λ e. ground arith)

none_is_some : ¬ (false ≡ true)
none_is_some e = ground arith

-- What the search compares the element with is ordered by a number.
abbrev pub RanksWith : (ℕ → ℕ) → Heap → ℕ → Type 0
RanksWith rank h elem =
    (i : ℕ)
    → i < h.last
    → h.compare (get_or h.members i 0) elem ≡ compare (rank (get_or h.members i 0)) (rank elem)

pub place_of-RanksWith :
    (rank : ℕ → ℕ) (h : Heap) (elem : ℕ)
    → RanksWith rank h elem
    → IsSorted rank h
    → IsAt rank h elem (place_of elem h)
      ⊎ ((place_of elem h ≡ h.last) × ((i : ℕ) → ¬ IsAt rank h elem i))
unfolding place_of
place_of-RanksWith rank h elem r s = place (search h.last probe 0 h.last) refl
  where
    probe : ℕ → Ordering
    probe = λ k. h.compare (get_or h.members k 0) elem

    cut : Cut probe h.last
    cut i j l m =
        rw (r i (omega arith), r j m)
          (cut-ranks (rank (get_or h.members i 0)) (rank (get_or h.members j 0)) (rank elem)
            (s i j l m))

    place :
        (o : Option ℕ)
        → search h.last probe 0 h.last ≡ o
        → IsAt rank h elem (elim o [ none ↦ h.last | some k ↦ k ])
          ⊎ ((elim o [ none ↦ h.last | some k ↦ k ] ≡ h.last) × ((i : ℕ) → ¬ IsAt rank h elem i))
    place (some k) e =
        let at = search_found probe h.last 0 h.last k e in
        inl (at.0, compare-eq (rank (get_or h.members k 0)) (rank elem) (sym (r k at.0) ∙ at.1))
    place none e = inr (
      refl,
      λ i a. none_is_some (
          sym (ap is_some e)
          ∙ search_complete probe h.last 0 h.last i cut (omega arith) (omega arith) a.0
              (r i a.0 ∙ eq-compare (rank (get_or h.members i 0)) (rank elem) a.1)),
    )

-- The array has room for the members, and there is a member's worth of it.
abbrev pub Fits : Heap → Type 0
Fits h = (h.last ≤ h.size) × (length h.members ≡ h.size) × (0 < h.size)

-- A sort keeps the length of what it sorts.
abbrev pub KeepsLength : Sort → Type 0
KeepsLength by = (c : ℕ → ℕ → Ordering) (xs : List ℕ) → length (by c xs) ≡ length xs

-- The call goes through, on a heap with `count` members, and returns `answer`.
abbrev pub Returns : Option (Heap × ℕ) → ℕ → ℕ → Type 0
Returns none count answer = ⊥
Returns (some (g, n)) count answer = Fits g × (g.last ≡ count) × (n ≡ answer)

pub resized-length :
    (n size : ℕ) (ms : List ℕ) → length ms ≡ size → length (take n ms ++ replicate (n - size) 0) ≡ n
resized-length n size ms e = omega (
  arith,
  length-append (take n ms) (replicate (n - size) 0),
  length-take n ms,
  length-replicate {A = ℕ} (n - size) 0,
)

pub sorted-length :
    (by : Sort) (c : ℕ → ℕ → Ordering) (n : ℕ) (ms : List ℕ)
    → KeepsLength by
    → length (by c (take n ms) ++ drop n ms) ≡ length ms
sorted-length by c n ms k = omega (
  arith,
  length-append (by c (take n ms)) (drop n ms),
  k c (take n ms),
  length-take n ms,
  length-drop n ms,
)

pub removed-length :
    (i last : ℕ) (ms : List ℕ)
    → i < last
    → last ≤ length ms
    → length (
        set (take i ms ++ take (last - 1 - i) (drop (i + 1) ms) ++ drop (last - 1) ms) (last - 1) 0)
      ≡ length ms
removed-length i last ms h l =
    length-set (take i ms ++ take (last - 1 - i) (drop (i + 1) ms) ++ drop (last - 1) ms) (last - 1)
      0
    ∙ omega (
      arith,
      length-append (take i ms ++ take (last - 1 - i) (drop (i + 1) ms)) (drop (last - 1) ms),
      length-append (take i ms) (take (last - 1 - i) (drop (i + 1) ms)),
      length-take i ms,
      length-take (last - 1 - i) (drop (i + 1) ms),
      length-drop (i + 1) ms,
      length-drop (last - 1) ms,
    )

-- `Heap_add` of a pointer that is not null keeps the array as large as its size says and at least
-- as large as the count, which it raises by one and returns.
add-Fits :
    (by : Sort) (elem : ℕ) (h : Heap)
    → KeepsLength by
    → Fits h
    → 0 < elem
    → Returns (add by elem h) (h.last + 1) (h.last + 1)
unfolding add sort resize
add-Fits by elem h k f p =
    let grown = take (h.size * 2) h.members ++ replicate (h.size * 2 - h.size) 0 in
    ground (
      arith,
      sorted-length by h.compare (h.last + 1) (set h.members h.last elem) k,
      length-set h.members h.last elem,
      sorted-length by h.compare (h.last + 1) (set grown h.last elem) k,
      length-set grown h.last elem,
      resized-length (h.size * 2) h.size h.members f.1,
    )

delete-Fits_at :
    (elem : ℕ) (h : Heap)
    → Fits h
    → 0 < elem
    → place_of elem h < h.last
    → Returns (delete elem h) (h.last - 1) 1
unfolding delete find resize
delete-Fits_at elem h f p l =
    let i = place_of elem h in
    let ms =
      set
        (take i h.members
          ++ take (h.last - 1 - i) (drop (i + 1) h.members)
          ++ drop (h.last - 1) h.members)
        (h.last - 1) 0 in
    let e : length ms ≡ length h.members = removed-length i h.last h.members l (omega arith) in
    ground (arith, e, resized-length (h.size / 2) h.size ms (omega arith))

-- `Heap_delete` of a pointer that is not null keeps the array as large as its size says and at
-- least as large as the count, also where it is cut to half. It returns 1 and lowers the count where
-- `Heap_find` gives a place of a member; where `Heap_find` gives `last` or more, it returns 0 and
-- leaves the heap.
pub delete-Fits :
    (elem : ℕ) (h : Heap)
    → Fits h
    → 0 < elem
    → (i : ℕ) × (find elem h ≡ some i)
      × ((i < h.last × Returns (delete elem h) (h.last - 1) 1)
          ⊎ (h.last ≤ i × (delete elem h ≡ some (h, 0))))
unfolding delete find resize
delete-Fits elem h f p = (
  place_of elem h,
  (ground arith),
  elim (Bool-cases (ltb (place_of elem h) h.last)) [
    | inl e ↦ inl ((ground arith), delete-Fits_at elem h f p (ground arith))
    | inr e ↦ inr ((ground arith), ground arith)
  ],
)
