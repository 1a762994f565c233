-- ===== src/Heap/Placed.antt =====
-- The members in use, and where `Heap_add` of src/hub/heap.c puts another.
use utu.Prelude.{
  ℕ, suc, ◌+◌, ◌-◌, ◌*◌, ◌≤◌, ◌<◌, ◌≡◌, inl, inr, refl, ap, ◌∙◌, true, false, some, List, [], ◌∷◌,
  ◌++◌, ltb, take, drop, set, replicate, get_or, length, length-take, length-set, take-append,
  arith, Bool-cases,
}
use utu.Heap.{Heap, Sort, resize, sort, add, is_full}
use utu.Heap.Find.{Fits, KeepsLength, resized-length, sorted-length}
use utu.Heap.Bags.{get_or-take, take-set_next, take_front}

-- The members in use.
abbrev pub listed : Heap → List ℕ
listed h = take h.last h.members

pub length-listed : (h : Heap) → Fits h → length (listed h) ≡ h.last
length-listed h f = omega (arith, length-take h.last h.members)

pub listed_at : (h : Heap) (i : ℕ) → i < h.last → get_or (listed h) i 0 ≡ get_or h.members i 0
listed_at h i l = get_or-take h.last i h.members l

abbrev placed : Sort → ℕ → Heap → Heap
placed by elem g = sort by (record g { members = set g.members g.last elem; last = g.last + 1 })

listed-placed :
    (by : Sort) (elem : ℕ) (g : Heap)
    → KeepsLength by
    → g.last < length g.members
    → listed (placed by elem g) ≡ by g.compare (listed g ++ (elem ∷ []))
unfolding sort
listed-placed by elem g k h =
    ap (λ n. take n (by g.compare (take n ms) ++ drop n ms)) one_more
    ∙ ap (λ n. take n (by g.compare (take (suc g.last) ms) ++ drop (suc g.last) ms)) size
    ∙ take-append (by g.compare (take (suc g.last) ms)) (drop (suc g.last) ms)
    ∙ ap (by g.compare) (take-set_next g.last elem g.members h)
  where
    one_more : g.last + 1 ≡ suc g.last
    one_more = omega arith

    ms : List ℕ
    ms = set g.members g.last elem

    size : suc g.last ≡ length (by g.compare (take (suc g.last) ms))
    size = omega (
      arith,
      k g.compare (take (suc g.last) ms),
      length-take (suc g.last) ms,
      length-set g.members g.last elem,
    )

abbrev pub resized : ℕ → Heap → Heap
resized size h = record h {
  size = size;
  members = take size h.members ++ replicate (size - h.size) 0;
}

pub listed-resized :
    (h : Heap) (size : ℕ)
    → h.last ≤ size
    → h.last ≤ length h.members
    → listed (resized size h) ≡ listed h
listed-resized h size l m = take_front h.last size h.members (replicate (size - h.size) 0) l m

pub require_pos : (n : ℕ) → 0 < n → ltb 0 n ≡ true
require_pos n h = ground arith

-- Heap_add puts a pointer behind the members in use and sorts them; the array grows where it is full.
pub add-listed :
    (by : Sort) (elem : ℕ) (h : Heap)
    → KeepsLength by
    → Fits h
    → 0 < elem
    → (g : Heap) × (add by elem h ≡ some (g, h.last + 1))
      × Fits g
      × (g.compare ≡ h.compare)
      × (listed g ≡ by h.compare (listed h ++ (elem ∷ [])))
unfolding add resize sort
add-listed by elem h k f p = elim (Bool-cases (is_full h)) [
  | inl e ↦ (
    placed by elem wide,
    rw (require_pos elem p, e, require_pos (h.size * 2) (omega arith)) refl,
    fits wide inside width,
    refl,
    listed-placed by elem wide k inside ∙ ap (λ l. by h.compare (l ++ (elem ∷ []))) same,
  )
  | inr e ↦
      let room : h.last < length h.members = omega (arith, not_full e) in
      (
        placed by elem h,
        rw (require_pos elem p, e) refl,
        fits h room f.1,
        refl,
        listed-placed by elem h k room,
      )
]
  where
    wide : Heap
    wide = resized (h.size * 2) h

    same : listed wide ≡ listed h
    same = listed-resized h (h.size * 2) (omega arith) (omega arith)

    width : length wide.members ≡ wide.size
    width = resized-length (h.size * 2) h.size h.members f.1

    inside : h.last < length wide.members
    inside = omega (arith, width)

    not_full : is_full h ≡ false → ¬ (h.last ≡ h.size)
    not_full e q = ground arith

    fits :
        (g : Heap) → g.last < length g.members → length g.members ≡ g.size → Fits (placed by elem g)
    fits g l z = (
      omega arith,
      sorted-length by g.compare (g.last + 1) (set g.members g.last elem) k
          ∙ length-set g.members g.last elem
          ∙ z,
      omega arith,
    )
