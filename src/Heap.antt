-- ===== src/Heap.antt =====
-- The sorted array of src/hub/heap.c. A pointer is a number, and 0 is the null pointer.
pub mod Search
pub mod Find
pub mod Pointers
pub mod Bags
pub mod Placed
pub mod Keeps
pub mod Drops
use utu.Prelude.{
  ℕ, zero, suc, ◌+◌, ◌-◌, ◌*◌, ◌/◌, Bool, true, false, ◌&&◌, Option, none, some, List, [], ◌∷◌,
  ◌++◌, ◌==◌, ltb, leb, if◌then◌else◌, ◌>>=◌, ◌>>◌, require, take, drop, set, get_or, replicate,
  length, Ordering,
}
use Prim.Native.Nat.{lt, eq, gt}

-- `HEAP_SIZE`
abbrev pub heap_size : ℕ
heap_size = 8

-- `Heap`. Of what `compare` returns only the sign is used.
pub record Heap : Type 0 where
  pub last : ℕ
  pub size : ℕ
  pub members : List ℕ
  pub compare : ℕ → ℕ → Ordering

-- `SGLIB_ARRAY_HEAP_SORT` on an array.
abbrev pub Sort : Type 0
Sort = (ℕ → ℕ → Ordering) → List ℕ → List ℕ

-- `Heap_create` with a comparison.
unfoldable pub create : (ℕ → ℕ → Ordering) → Heap
create compare = record {
  last = 0;
  size = heap_size;
  members = replicate heap_size 0;
  compare = compare;
}

abbrev pub is_full : Heap → Bool
is_full h = h.last == h.size

-- `Heap_valid`
abbrev pub valid : Heap → ℕ → Bool
valid h i = ltb i h.last

-- `Heap_resize`: `realloc` keeps the members that fit, and the rest is cleared.
unfoldable pub resize : ℕ → Heap → Option Heap
resize size h = do
  require (ltb 0 size)
  some (record h { size = size; members = take size h.members ++ replicate (size - h.size) 0 })

-- `Heap_sort`, which sorts the members in use.
unfoldable pub sort : Sort → Heap → Heap
sort by h = record h { members = by h.compare (take h.last h.members) ++ drop h.last h.members }

-- `Heap_add`, with the count that it returns.
unfoldable pub add : Sort → ℕ → Heap → Option (Heap × ℕ)
unfolding sort resize
add by elem h = do
  require (ltb 0 elem)
  let place = λ (g : Heap).
        sort by (record g { members = set g.members g.last elem; last = g.last + 1 }) in
      (if is_full h then resize (h.size * 2) h else some h) >>= λ g. some (place g, g.last + 1)

-- The loop of `Heap_find` between `ii` and `jj + 1`: `probe` compares a member with the element.
-- The `int` indices are exact on a heap of fewer than 2 ^ 30 members.
unfoldable pub search : ℕ → (ℕ → Ordering) → ℕ → ℕ → Option ℕ
search zero probe ii end = none
search (suc fuel) probe ii end =
    let kk = (end - 1 + ii) / 2 in
    let right = search fuel probe (kk + 1) end in
    let left = search fuel probe ii kk in
    if ltb ii end then elim (probe kk) [ eq ↦ some kk | lt ↦ right | gt ↦ left ] else none

-- What `Heap_find` returns of an element that is not null: `last` if it is not there.
unfoldable pub place_of : ℕ → Heap → ℕ
unfolding search
place_of elem h = elim (search h.last (λ k. h.compare (get_or h.members k 0) elem) 0 h.last) [
  | none ↦ h.last
  | some k ↦ k
]

-- `Heap_find`; the null pointer is a failed assertion.
unfoldable pub find : ℕ → Heap → Option ℕ
unfolding place_of
find elem h = do require (ltb 0 elem); some (place_of elem h)

-- The body of `Heap_delete` on the member at `i`: `memmove` and the null pointer behind it.
abbrev remove : ℕ → Heap → Heap
remove i h =
    let count = h.last - 1 in
    record h {
      last = count;
      members =
          set
            (take i h.members ++ take (count - i) (drop (i + 1) h.members) ++ drop count h.members)
            count 0;
    }

-- `Heap_delete`, with what it returns.
unfoldable pub delete : ℕ → Heap → Option (Heap × ℕ)
unfolding find resize
delete elem h = do
  require (ltb 0 elem)
  i ← find elem h
  let g = remove i h in
      let shrink = ltb heap_size g.last && ltb g.last (g.size / 2) in
      let removed = (if shrink then resize (g.size / 2) g else some g) >>= (λ k. some (k, 1)) in
      if valid h i then removed else some (h, 0)

-- `Heap_clear`
abbrev pub clear : Heap → Heap
clear h = record h { last = 0 }
