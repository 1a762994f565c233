-- ===== src/Routing/Named.antt =====
-- The children of routes in the order of their names: src/hub/routing.c.
use utu.Prelude.{
  ℕ, zero, suc, ◌≤◌, ◌<◌, ◌≡◌, sym, ap, ◌∙◌, subst, inl, inr, none, some, some-injective, List, [],
  ◌∷◌, ◌==◌, length, arith, bind_inv, Bool-cases, Option-cases, get_or, Ordering,
}
use Prim.Native.Nat.{lt, eq, gt}
use utu.Stackish.Node.{Bytes}
use utu.Heap.{Heap, search}
use utu.Heap.Find.{Fits}
use utu.Heap.Search.{Cut, search_found, search_complete}
use utu.Heap.Bags.{times, Every, Every-at}
use utu.Heap.Placed.{listed, length-listed, listed_at}
use utu.Routing.{Table, Library, find_child, children_compare}

-- A comparison by which things can be sorted.
pub record IsOrder {A : Type 0} (c : A → A → Ordering) : Type 0 where
  pub same : (x : A) → c x x ≡ eq
  pub opposite : (x y : A) → c x y ≡ gt → ¬ (c y x ≡ gt)
  pub equal : (x y z : A) → c x z ≡ eq → c y z ≡ eq → c x y ≡ eq
  pub below : (x y z : A) → ¬ (c x y ≡ gt) → c y z ≡ lt → c x z ≡ lt
  pub above : (x y z : A) → ¬ (c x y ≡ gt) → c x z ≡ gt → c y z ≡ gt

abbrev pub AscendsBy : (ℕ → ℕ → Ordering) → List ℕ → Type 0
AscendsBy c [] = Unit {0}
AscendsBy c (x ∷ xs) = Every (λ y. ¬ (c x y ≡ gt)) xs × AscendsBy c xs

abbrev pub by_name : Library → Bytes → Bytes → Ordering
by_name lib a b = lib.bstrcmp (some a) (some b)

-- The children are sorted by their names, and no two have the same.
pub record IsNamed (lib : Library) (t : Table) (p : ℕ) : Type 0 where
  pub ascends : AscendsBy (children_compare lib t) (listed (t.routes p).children)
  pub distinct :
      (x y : ℕ)
      → 0 < times x (listed (t.routes p).children)
      → 0 < times y (listed (t.routes p).children)
      → children_compare lib t x y ≡ eq
      → x ≡ y

-- A child with a name.
abbrev pub IsChild : Library → Table → ℕ → Bytes → ℕ → Type 0
IsChild lib t p name r =
    (0 < times r (listed (t.routes p).children)) × (by_name lib (t.routes r).name name ≡ eq)

AscendsBy-at :
    (c : ℕ → ℕ → Ordering) (i j : ℕ) (xs : List ℕ)
    → ((x : ℕ) → c x x ≡ eq)
    → AscendsBy c xs
    → i ≤ j
    → j < length xs
    → ¬ (c (get_or xs i 0) (get_or xs j 0) ≡ gt)
AscendsBy-at c i j [] s a l h = absurd (omega arith)
AscendsBy-at c zero zero (x ∷ xs) s a l h = λ e. absurd (ground (arith, s x, e))
AscendsBy-at c zero (suc j) (x ∷ xs) s a l h = Every-at (λ y. ¬ (c x y ≡ gt)) j xs a.0 (omega arith)
AscendsBy-at c (suc i) zero (x ∷ xs) s a l h = absurd (omega arith)
AscendsBy-at c (suc i) (suc j) (x ∷ xs) s a l h =
    AscendsBy-at c i j xs s a.1 (omega arith) (omega arith)

-- A number that occurs stands at a place, and one that stands at a place occurs.
pub times-place :
    (x : ℕ) (xs : List ℕ) → 0 < times x xs → (i : ℕ) × (i < length xs) × (get_or xs i 0 ≡ x)
times-place x [] h = absurd (omega arith)
times-place x (y ∷ xs) h = elim (Bool-cases (x == y)) [
  | inl e ↦ (0, omega arith, ground arith)
  | inr e ↦ let (i, l, a) = times-place x xs (ground arith) in (suc i, omega arith, a)
]

pub times-get_or : (i : ℕ) (xs : List ℕ) → i < length xs → 0 < times (get_or xs i 0) xs
times-get_or i [] h = absurd (omega arith)
times-get_or zero (x ∷ xs) h = ground arith
times-get_or (suc i) (x ∷ xs) h = ground (arith, times-get_or i xs (omega arith))

module _ (lib : Library) (order : IsOrder (by_name lib)) where
  -- What the search compares with the name.
  abbrev probe : Table → ℕ → Bytes → ℕ → Ordering
  probe t p name k =
      lib.bstrcmp (some (t.routes (get_or (t.routes p).children.members k 0)).name) (some name)

  pub found-IsChild :
      (t : Table) (p : ℕ) (name : Bytes) (r : ℕ)
      → Fits (t.routes p).children
      → find_child lib t p (some name) ≡ some r
      → IsChild lib t p name r
  unfolding find_child
  found-IsChild t p name r f e =
      let children = (t.routes p).children in
      let (i, a, b) = bind_inv (search children.last (probe t p name) 0 children.last) _ r e in
      let (inside, same) = search_found (probe t p name) children.last 0 children.last i a in
      let here : get_or children.members i 0 ≡ r = some-injective _ r b in
      (
        subst (λ x. 0 < times x (listed children)) (listed_at children i inside ∙ here)
            (times-get_or i (listed children) (omega (arith, length-listed children f))),
        subst (λ x. by_name lib (t.routes x).name name ≡ eq) here same,
      )

  pub IsChild-found :
      (t : Table) (p : ℕ) (name : Bytes) (r : ℕ)
      → Fits (t.routes p).children
      → IsNamed lib t p
      → IsChild lib t p name r
      → find_child lib t p (some name) ≡ some r
  unfolding find_child
  IsChild-found t p name r f n (there, same) =
      elim (Option-cases (find_child lib t p (some name))) [
        | inr (q, e) ↦
            let (found, equal) = found-IsChild t p name q f e in
            e
            ∙ ap some (
                n.distinct q r found there
                  (order.equal (t.routes q).name (t.routes r).name name equal same))
        | inl e ↦ absurd (missed e)
      ]
    where
      children : Heap
      children = (t.routes p).children

      cut : Cut (probe t p name) children.last
      cut i j l h =
          let up =
            AscendsBy-at (children_compare lib t) i j (listed children)
              (λ x. order.same (t.routes x).name) n.ascends l
              (omega (arith, length-listed children f)) in
          let at = λ (k : ℕ). (t.routes (get_or children.members k 0)).name in
          let ordered : ¬ (by_name lib (at i) (at j) ≡ gt) =
            subst (λ x. ¬ (children_compare lib t x (get_or children.members j 0) ≡ gt))
              (listed_at children i (omega arith))
              (subst (λ x. ¬ (children_compare lib t (get_or (listed children) i 0) x ≡ gt))
                (listed_at children j h) up) in
          (order.below (at i) (at j) name ordered, order.above (at i) (at j) name ordered)

      missed : find_child lib t p (some name) ≡ none → ⊥
      missed e =
          let (i, l, at) = times-place r (listed children) there in
          let inside : i < children.last = omega (arith, length-listed children f) in
          let equal =
            subst (λ x. by_name lib (t.routes x).name name ≡ eq)
              (sym at ∙ listed_at children i inside) same in
          let found =
            search_complete (probe t p name) children.last 0 children.last i cut (omega arith)
              (omega arith) inside equal in
          ground (arith, found, e)
