-- ===== src/Routing/Joined.antt =====
-- Registering and unregistering keep the routes and the members of src/hub/routing.c linked.
use Prim.Native.Nat.{eq}
use utu.Prelude.{
  ℕ, ◌+◌, ◌≡◌, refl, sym, ap, ◌∙◌, subst, Option, some, some-injective, List, [], ◌∷◌, ◌++◌, arith,
  bind_inv, get_or,
}
use utu.Stackish.Node.{Bytes}
use utu.Heap.{Heap, create, search, add}
use utu.Heap.Find.{Fits}
use utu.Heap.Search.{search_found}
use utu.Heap.Pointers.{create_pointers}
use utu.Heap.Bags.{times, Every, Every-at}
use utu.Heap.Placed.{listed, length-listed, listed_at, add-listed}
use utu.Heap.Keeps.{IsBag, IsSorting, Every-added}
use utu.Routing.{
  Route, Table, Library, create_root, placed, new_route, alloc, find_child, children_compare,
  set_children,
}
use utu.Routing.Linked.{IsGiven, IsLinked, update_at, create_pointers-IsBag}

-- A child that is found is a route that was made.
pub find_child-IsGiven :
    (lib : Library) (t : Table) (parent : ℕ) (name : Option Bytes) (r : ℕ)
    → IsLinked t
    → find_child lib t parent name ≡ some r
    → IsGiven t.fresh r
unfolding find_child
find_child-IsGiven lib t parent name r l e =
    let children = (t.routes parent).children in
    let (i, a, b) =
      bind_inv
        (search children.last
          (λ k. lib.bstrcmp (some (t.routes (get_or children.members k 0)).name) name) 0
          children.last)
        _ r e in
    let (inside, found) =
      search_found (λ k. lib.bstrcmp (some (t.routes (get_or children.members k 0)).name) name)
        children.last 0 children.last i a in
    let (fits, each) = l.kids parent in
    let at =
      Every-at (IsGiven t.fresh) i (listed children) each
        (omega (arith, length-listed children fits)) in
    subst (IsGiven t.fresh) (listed_at children i inside ∙ some-injective _ r b) at

IsGiven-more : (n : ℕ) (xs : List ℕ) → Every (IsGiven n) xs → Every (IsGiven (n + 1)) xs
IsGiven-more n [] a = tt
IsGiven-more n (x ∷ xs) a = ((a.0.0, omega arith), IsGiven-more n xs a.1)

module _ (lib : Library) where
  pub placed-kids :
      (t : Table) (name : Bytes)
      → IsLinked t
      → (q : ℕ)
      → Fits ((placed lib t name).routes q).children
        × Every (IsGiven (t.fresh + 1)) (listed ((placed lib t name).routes q).children)
  unfolding create
  placed-kids t name l q =
      update_at (λ (x : Route). Fits x.children × Every (IsGiven (t.fresh + 1)) (listed x.children))
        t.routes t.fresh q (new_route lib t name) (λ e. ((omega arith, refl, omega arith), tt))
        (λ e. let (f, a) = l.kids q in (f, IsGiven-more t.fresh _ a))

  placed-members :
      (t : Table) (name : Bytes)
      → IsLinked t
      → (q : ℕ) → ((placed lib t name).routes q).members ≡ (t.routes q).members
  placed-members t name l q =
      update_at (λ (x : Route). x.members ≡ (t.routes q).members) t.routes t.fresh q
        (new_route lib t name) (λ e. sym (l.unused q (omega arith))) (λ e. refl)

module _ (lib : Library) (law : IsSorting lib.by) where
  set_children-members :
      (t : Table) (p : ℕ) (h : Heap) (q : ℕ)
      → ((set_children t p h).routes q).members ≡ (t.routes q).members
  set_children-members t p h q =
      update_at (λ (x : Route). x.members ≡ (t.routes q).members) t.routes p q
        (record (t.routes p) { children = h }) (λ e. ap (λ x. (t.routes x).members) (sym e))
        (λ e. refl)

  -- A route that is made under another leaves everything linked.
  pub alloc-IsLinked :
      (t : Table) (parent : ℕ) (name : Bytes)
      → IsLinked t
      → (u : Table) × (alloc lib t parent name ≡ some (u, t.fresh))
        × IsLinked u
        × (u.fresh ≡ t.fresh + 1)
        × ((m : ℕ) → u.member_routes m ≡ t.member_routes m)
        × ((r : ℕ) → (u.routes r).members ≡ (t.routes r).members)
  unfolding alloc
  alloc-IsLinked t parent name l = (
    v,
    rw (alloc, e) refl,
    record {
      bags = λ q. subst IsBag (sym (same q)) (l.bags q);
      held = l.held;
      agree = λ q m. ap (λ h. times m (listed h)) (same q) ∙ l.agree q m;
      unused = λ q o. same q ∙ l.unused q (omega arith);
      some_given = omega arith;
      kids = λ q.
          update_at
            (λ (x : Route). Fits x.children × Every (IsGiven (t.fresh + 1)) (listed x.children))
            made.routes parent q (record (made.routes parent) { children = g })
            (λ d. (
              f,
              Every-added (IsGiven (t.fresh + 1)) lib.by t.fresh children g law more
                  (placed-kids lib t name l parent).1 (l.some_given, omega arith),
            ))
            (λ d. placed-kids lib t name l q);
    },
    refl,
    (λ m. refl),
    same,
  )
    where
      made : Table
      made = placed lib t name

      children : Heap
      children = record (made.routes parent).children { compare = children_compare lib made }

      grown :
          (g : Heap) × (add lib.by t.fresh children ≡ some (g, children.last + 1))
          × Fits g
          × (g.compare ≡ children.compare)
          × (listed g ≡ lib.by children.compare (listed children ++ (t.fresh ∷ [])))
      grown =
          add-listed lib.by t.fresh children law.keeps_length (placed-kids lib t name l parent).0
            l.some_given

      g : Heap
      g = grown.0

      e : add lib.by t.fresh children ≡ some (g, children.last + 1)
      e = grown.1

      f : Fits g
      f = grown.2

      more : listed g ≡ lib.by children.compare (listed children ++ (t.fresh ∷ []))
      more = grown.4

      v : Table
      v = set_children made parent g

      same : (q : ℕ) → (v.routes q).members ≡ (t.routes q).members
      same q = set_children-members made parent g q ∙ placed-members lib t name l q

-- Memory with no routes, in which members have none either.
abbrev pub no_routes : Route → Table
no_routes blank = record {
  routes = λ r. record blank { members = create_pointers; children = create (λ x y. eq) };
  member_routes = λ m. create_pointers;
  fresh = 1;
}

pub no_routes-IsLinked : (blank : Route) → IsLinked (no_routes blank)
unfolding create create_pointers
no_routes-IsLinked blank = record {
  bags = λ r. create_pointers-IsBag;
  held = λ m. create_pointers-IsBag;
  agree = λ r m. refl;
  kids = λ r. ((omega arith, refl, omega arith), tt);
  unused = λ r l. refl;
  some_given = omega arith;
}

-- The root of the routes leaves everything linked.
pub create_root-IsLinked :
    (lib : Library) (t : Table) (name : Bytes)
    → IsLinked t
    → IsLinked (create_root lib t name).0
      × IsGiven (create_root lib t name).0.fresh (create_root lib t name).1
unfolding create_root
create_root-IsLinked lib t name l = (
  record {
    bags = λ q. subst IsBag (sym (placed-members lib t name l q)) (l.bags q);
    held = l.held;
    agree = λ q m. ap (λ h. times m (listed h)) (placed-members lib t name l q) ∙ l.agree q m;
    unused = λ q o. placed-members lib t name l q ∙ l.unused q (omega arith);
    some_given = omega arith;
    kids = λ q. placed-kids lib t name l q;
  },
  (l.some_given, omega arith),
)
