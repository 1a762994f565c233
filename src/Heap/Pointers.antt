-- ===== src/Heap/Pointers.antt =====
-- `Heap_void_ptr_compare` of src/hub/heap.c.
use utu.Prelude.{
  ℕ, ◌+◌, ◌-◌, ◌%◌, ◌^◌, ◌<◌, ◌≡◌, ◌==◌, ltb, if◌then◌else◌, arith, Ordering, [], ◌∷◌, some, ◌>>=◌,
  true, refl, replicate,
}
use utu.Heap.{heap_size, Heap, Sort, create, add, sort, search, find, place_of, delete}
use Prim.Native.Nat.{lt, eq, gt}

-- The sign of an `int` given by its 32 bits.
unfoldable pub sign : ℕ → Ordering
sign bits = if bits == 0 then eq else (if ltb bits (2 ^ 31) then gt else lt)

-- The difference of the pointers as a `long`, returned as an `int`.
unfoldable pub void_ptr_compare : ℕ → ℕ → Ordering
unfolding sign
void_ptr_compare x y = sign ((x + 2 ^ 64 - y) % 2 ^ 32)

void_ptr_compare-far : (x : ℕ) → x < 2 ^ 64 → void_ptr_compare (x + 2 ^ 32) x ≡ eq
unfolding void_ptr_compare sign
void_ptr_compare-far x h = ground arith

-- `Heap_create` with no comparison.
unfoldable pub create_pointers : Heap
unfolding create
create_pointers = create void_ptr_compare

ltb-pos : (n : ℕ) → 0 < n → ltb 0 n ≡ true
ltb-pos n h = ground arith

abbrev one : ℕ → Heap
one y = record {
  last = 1;
  size = heap_size;
  members = y ∷ replicate 7 0;
  compare = void_ptr_compare;
}

add-one :
    (by : Sort) (y : ℕ)
    → 0 < y
    → (by void_ptr_compare (y ∷ []) ≡ y ∷ [])
    → add by y create_pointers ≡ some (one y, 1)
unfolding add create_pointers create sort
add-one by y p s = rw (ltb-pos y p, s) refl

place_of-one : (x y : ℕ) → void_ptr_compare y x ≡ eq → place_of x (one y) ≡ 0
unfolding place_of search
place_of-one x y e = rw (place_of, search, e) refl

delete-one :
    (x y : ℕ) → 0 < x → void_ptr_compare y x ≡ eq → delete x (one y) ≡ some (create_pointers, 1)
unfolding delete find create_pointers create
delete-one x y p e = rw (ltb-pos x p, place_of-one x y e) refl

-- On a heap of pointers that holds one pointer alone, `Heap_delete` of another that lies 4 GiB below
-- it returns 1 and empties the heap.
pub delete-far :
    (by : Sort) (x : ℕ)
    → 0 < x
    → x < 2 ^ 64
    → (by void_ptr_compare ((x + 2 ^ 32) ∷ []) ≡ (x + 2 ^ 32) ∷ [])
    → (add by (x + 2 ^ 32) create_pointers >>= λ (h, n). delete x h) ≡ some (create_pointers, 1)
delete-far by x p l s =
    rw (add-one by (x + 2 ^ 32) (omega arith) s)
      (delete-one x (x + 2 ^ 32) p (void_ptr_compare-far x l))
