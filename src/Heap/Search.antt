-- ===== src/Heap/Search.antt =====
-- The binary search of src/hub/heap.c finds what is there.
use utu.Prelude.{ℕ, zero, suc, ◌+◌, ◌-◌, ◌/◌, ◌≤◌, ◌<◌, ◌≡◌, true, some, is_some, arith, Ordering}
use Prim.Native.Nat.{lt, eq, gt}
use utu.Heap.{search}

module _ (probe : ℕ → Ordering) where
  -- Members below the element come first, those above it last.
  abbrev pub Cut : ℕ → Type 0
  Cut end =
      (i j : ℕ) → i ≤ j → j < end → (probe j ≡ lt → probe i ≡ lt) × (probe i ≡ gt → probe j ≡ gt)

  -- The place that the search returns holds a member equal to the element.
  pub search_found :
      (fuel ii end k : ℕ) → search fuel probe ii end ≡ some k → (k < end) × (probe k ≡ eq)
  unfolding search
  search_found zero ii end k e = ground arith
  search_found (suc fuel) ii end k e =
      let kk = (end - 1 + ii) / 2 in
      ground (arith, search_found fuel (kk + 1) end k, search_found fuel ii kk k)

  -- Enough rounds find a member that is equal to the element.
  pub search_complete :
      (fuel ii end k : ℕ)
      → Cut end
      → end ≤ ii + fuel
      → ii ≤ k
      → k < end
      → probe k ≡ eq
      → is_some (search fuel probe ii end) ≡ true
  unfolding search
  search_complete zero ii end k c f l h e = absurd (omega arith)
  search_complete (suc fuel) ii end k c f l h e =
      let kk = (end - 1 + ii) / 2 in
      ground (
        arith,
        search_complete fuel (kk + 1) end k c,
        search_complete fuel ii kk k (λ i j p q. c i j p (omega arith)),
        c k kk,
        c kk k,
      )
