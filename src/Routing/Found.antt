-- ===== src/Routing/Found.antt =====
-- The routes of a path are found where they were made: `Route_add` and `Route_find_child` of
-- src/hub/routing.c.
use Prim.Native.Nat.{eq}
use utu.Prelude.{
  ℕ, ◌+◌, ◌≡◌, ◌==◌, refl, sym, ap, ap₂, ◌∙◌, subst, inl, inr, false, Bool-cases, if◌then◌else◌,
  Option, none, some, List, [], ◌∷◌, arith, Option-cases,
}
use utu.Stackish.Node.{Bytes}
use utu.Stackish.Print.{c_string}
use utu.Heap.Keeps.{IsSorting}
use utu.Heap.{create}
use utu.Heap.Bags.{times}
use utu.Heap.Placed.{listed}
use utu.Routing.{
  Table, Route, Library, create_root, placed, new_route, children_compare, alloc, find_child,
  find_or_add, route_add,
}
use utu.Routing.Linked.{IsGiven, IsLinked}
use utu.Routing.Joined.{no_routes, find_child-IsGiven, alloc-IsLinked}
use utu.Routing.Named.{IsOrder, AscendsBy, by_name, IsNamed, IsChild, IsChild-found, found-IsChild}
use utu.Routing.Children.{Orders, alloc-Adds}
use utu.Routing.Kept.{same-IsNamed, Keeps, Keeps-Keeps, Adds-IsNamed, Adds-IsChild}

-- Names with no null character, which C strings hold whole.
abbrev pub ArePlain : List (Option Bytes) → Type 0
ArePlain [] = Unit {0}
ArePlain (none ∷ names) = ⊥
ArePlain (some name ∷ names) = (c_string name ≡ name) × ArePlain names

-- A way from child to child along names.
abbrev pub IsWay : Library → Table → ℕ → List (Option Bytes) → ℕ → Type 0
IsWay lib t p [] r = p ≡ r
IsWay lib t p (none ∷ names) r = ⊥
IsWay lib t p (some name ∷ names) r =
    (q : ℕ) × IsGiven t.fresh q × IsChild lib t p name q × IsWay lib t q names r

abbrev pub AreNamed : Library → Table → Type 0
AreNamed lib t = (p : ℕ) → IsNamed lib t p

Keeps-refl : (lib : Library) (t : Table) → IsLinked t → AreNamed lib t → Keeps lib t t
Keeps-refl lib t l n = record {
  linked = l;
  named = n;
  fresh = omega arith;
  child = λ p name r f c. c;
}

module _ (lib : Library) (law : IsSorting lib.by) (orders : Orders lib.by)
    (order : IsOrder (by_name lib)) where
  made-Reached :
      (t : Table) (parent : ℕ) (name : Bytes)
      → IsLinked t
      → AreNamed lib t
      → IsGiven t.fresh parent
      → find_child lib t parent (some name) ≡ none
      → (u : Table) × (alloc lib t parent name ≡ some (u, t.fresh))
        × Keeps lib t u
        × IsGiven u.fresh t.fresh
        × IsChild lib u parent name t.fresh
  made-Reached t parent name l n g e =
      let (u, made, a) = alloc-Adds lib law orders order t parent name l g in
      (
        u,
        made,
        record {
          linked = linked u made;
          named = Adds-IsNamed lib order t u parent name a l n miss;
          fresh = omega (arith, next u made);
          child = Adds-IsChild lib order t u parent name a l g;
        },
        (l.some_given, omega (arith, next u made)),
        (
          ground (arith, a.counts t.fresh),
          subst (λ w. by_name lib w name ≡ eq) (sym a.new_name) (order.same name),
        ),
      )
    where
      miss : (r : ℕ) → ¬ IsChild lib t parent name r
      miss r c = absurd (
          ground (arith, e, IsChild-found lib order t parent name r (l.kids parent).0 (n parent) c))

      linked : (u : Table) → alloc lib t parent name ≡ some (u, t.fresh) → IsLinked u
      linked u made =
          let (v, e, l2, f, held, members) = alloc-IsLinked lib law t parent name l in
          subst IsLinked (ap (λ o. elim o [ none ↦ t | some (x, y) ↦ x ]) (sym e ∙ made)) l2

      next : (u : Table) → alloc lib t parent name ≡ some (u, t.fresh) → u.fresh ≡ t.fresh + 1
      next u made =
          let (v, e, l2, f, held, members) = alloc-IsLinked lib law t parent name l in
          ap (λ o. elim o [ none ↦ u.fresh | some (x, y) ↦ x.fresh ]) (sym made ∙ e) ∙ f

  find_or_add-Reached :
      (t : Table) (parent : ℕ) (name : Bytes)
      → IsLinked t
      → AreNamed lib t
      → IsGiven t.fresh parent
      → c_string name ≡ name
      → (u : Table) × (r : ℕ) × (find_or_add lib t parent (some name) ≡ some (u, r))
        × Keeps lib t u
        × IsGiven u.fresh r
        × IsChild lib u parent name r
  unfolding find_or_add
  find_or_add-Reached t parent name l n g plain =
      elim (Option-cases (find_child lib t parent (some name))) [
        | inl e ↦
            let (u, made, keeps, given, child) = made-Reached t parent name l n g e in
            (u, t.fresh, rw (find_or_add, e, plain, made) refl, keeps, given, child)
        | inr (r, e) ↦ (
          t,
          r,
          rw (find_or_add, e) refl,
          Keeps-refl lib t l n,
          find_child-IsGiven lib t parent (some name) r l e,
          found-IsChild lib order t parent name r (l.kids parent).0 e,
        )
      ]

  pub route_add-IsWay :
      (t : Table) (parent : ℕ) (names : List (Option Bytes))
      → IsLinked t
      → AreNamed lib t
      → IsGiven t.fresh parent
      → ArePlain names
      → (u : Table) × (r : ℕ) × (route_add lib t parent names ≡ some (u, r))
        × Keeps lib t u
        × IsWay lib u parent names r
  unfolding route_add
  route_add-IsWay t parent [] l n g a = (t, parent, refl, Keeps-refl lib t l n, refl)
  route_add-IsWay t parent (none ∷ names) l n g a = absurd a
  route_add-IsWay t parent (some name ∷ names) l n g a =
      let (u, r, e, keeps, given, child) = find_or_add-Reached t parent name l n g a.0 in
      let (v, q, f, more, way) = route_add-IsWay u r names keeps.linked keeps.named given a.1 in
      let kept = more.child parent name r (omega (arith, g, keeps.fresh)) child in
      (
        v,
        q,
        rw (e, f) refl,
        Keeps-Keeps lib t u v keeps more,
        (r, (given.0, omega (arith, given, more.fresh)), kept, way),
      )

childless-IsNamed :
    (lib : Library) (t : Table) (p : ℕ) → listed (t.routes p).children ≡ [] → IsNamed lib t p
childless-IsNamed lib t p e = record {
  ascends = subst (AscendsBy (children_compare lib t)) (sym e) tt;
  distinct = λ x y h. absurd (ground (arith, ap (times x) e));
}

pub no_routes-AreNamed : (lib : Library) (blank : Route) → AreNamed lib (no_routes blank)
unfolding create
no_routes-AreNamed lib blank p = childless-IsNamed lib (no_routes blank) p refl

-- The root of the routes has no children.
pub create_root-AreNamed :
    (lib : Library) (t : Table) (name : Bytes)
    → IsLinked t
    → AreNamed lib t
    → AreNamed lib (create_root lib t name).0
unfolding create_root create
create_root-AreNamed lib t name l n p = elim (Bool-cases (p == t.fresh)) [
  | inl e ↦
      childless-IsNamed lib (placed lib t name) p
        (ap (λ b. listed (if b then new_route lib t name else t.routes p).children) e)
  | inr e ↦ same-IsNamed lib t (placed lib t name) p names l (rw e refl) (n p)
]
  where
    old : (r : ℕ) → IsGiven t.fresh r → t.routes r ≡ (placed lib t name).routes r
    old r g = sym (ap (λ b. if b then new_route lib t name else t.routes r) (differs r g))
      where
        differs : (r : ℕ) → IsGiven t.fresh r → (r == t.fresh) ≡ false
        differs r g = ground (arith, g)

    names :
        (x y : ℕ)
        → IsGiven t.fresh x
        → IsGiven t.fresh y
        → children_compare lib t x y ≡ children_compare lib (placed lib t name) x y
    names x y g h = ap₂ (λ (a b : Route). by_name lib a.name b.name) (old x g) (old y h)
