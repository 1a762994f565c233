-- ===== src/Routing/Children.antt =====
-- A route that is made under another keeps the children in the order of their names: `Route_alloc` of
-- src/hub/routing.c.
use utu.Prelude.{
  ℕ, ◌+◌, ◌<◌, ◌≡◌, refl, sym, ap, ap₂, ◌∙◌, subst, true, false, some, List, [], ◌∷◌, ◌++◌, ◌==◌,
  if◌then◌else◌, arith, Ordering,
}
use Prim.Native.Nat.{gt}
use utu.Stackish.Node.{Bytes}
use utu.Heap.{Heap, Sort, create, add}
use utu.Heap.Find.{Fits}
use utu.Heap.Bags.{times, Every}
use utu.Heap.Placed.{listed, add-listed}
use utu.Heap.Keeps.{IsSorting, one_if, times-added}
use utu.Routing.{
  Route, Table, Library, update, placed, new_route, alloc, children_compare, set_children,
}
use utu.Routing.Linked.{IsGiven, IsLinked, update_at}
use utu.Routing.Joined.{placed-kids}
use utu.Routing.Named.{IsOrder, AscendsBy, by_name}

-- What the sort does by a comparison that orders.
abbrev pub Orders : Sort → Type 0
Orders by = (c : ℕ → ℕ → Ordering) → IsOrder c → (xs : List ℕ) → AscendsBy c (by c xs)

names-IsOrder :
    (lib : Library) (t : Table) → IsOrder (by_name lib) → IsOrder (children_compare lib t)
names-IsOrder lib t o = record {
  same = λ x. o.same (t.routes x).name;
  opposite = λ x y. o.opposite (t.routes x).name (t.routes y).name;
  equal = λ x y z. o.equal (t.routes x).name (t.routes y).name (t.routes z).name;
  below = λ x y z. o.below (t.routes x).name (t.routes y).name (t.routes z).name;
  above = λ x y z. o.above (t.routes x).name (t.routes y).name (t.routes z).name;
}

Every-same :
    (P : ℕ → Type 0) (c d : ℕ → Ordering) (xs : List ℕ)
    → ((y : ℕ) → P y → c y ≡ d y)
    → Every P xs
    → Every (λ y. ¬ (c y ≡ gt)) xs
    → Every (λ y. ¬ (d y ≡ gt)) xs
Every-same P c d [] s e a = tt
Every-same P c d (x ∷ xs) s e a = ((λ g. a.0 (s x e.0 ∙ g)), Every-same P c d xs s e.1 a.1)

-- Only the comparisons of what is in the list count.
pub AscendsBy-same :
    (P : ℕ → Type 0) (c d : ℕ → ℕ → Ordering) (xs : List ℕ)
    → ((x y : ℕ) → P x → P y → c x y ≡ d x y)
    → Every P xs
    → AscendsBy c xs
    → AscendsBy d xs
AscendsBy-same P c d [] s e a = tt
AscendsBy-same P c d (x ∷ xs) s e a =
    (Every-same P (c x) (d x) xs (λ y. s x y e.0) e.1 a.0, AscendsBy-same P c d xs s e.1 a.1)

-- A table with one route more, which is a child of another.
pub record Adds (lib : Library) (t : Table) (parent : ℕ) (name : Bytes) (u : Table) : Type 0 where
  pub names : (r : ℕ) → r < t.fresh → (u.routes r).name ≡ (t.routes r).name
  pub new_name : (u.routes t.fresh).name ≡ name
  pub counts :
      (x : ℕ)
      → times x (listed (u.routes parent).children)
        ≡ one_if x t.fresh + times x (listed (t.routes parent).children)
  pub others :
      (q : ℕ)
      → (q == parent) ≡ false
      → (q == t.fresh) ≡ false
      → (u.routes q).children ≡ (t.routes q).children
  pub childless : listed (u.routes t.fresh).children ≡ []
  pub ascends : AscendsBy (children_compare lib u) (listed (u.routes parent).children)

update_ne : {A : Type 0} (f : ℕ → A) (p q : ℕ) (a : A) → (q == p) ≡ false → update f p a q ≡ f q
update_ne f p q a e = rw e refl

update_same : {A : Type 0} (f : ℕ → A) (p : ℕ) (a : A) → update f p a p ≡ a
update_same f p a = ap (λ b. if b then a else f p) (same p)
  where
    same : (p : ℕ) → (p == p) ≡ true
    same p = ground arith

module _ (lib : Library) (law : IsSorting lib.by) (orders : Orders lib.by)
    (order : IsOrder (by_name lib)) where
  set_children-name :
      (t : Table) (p : ℕ) (h : Heap) (q : ℕ)
      → ((set_children t p h).routes q).name ≡ (t.routes q).name
  set_children-name t p h q =
      update_at (λ (x : Route). x.name ≡ (t.routes q).name) t.routes p q
        (record (t.routes p) { children = h }) (λ e. ap (λ x. (t.routes x).name) (sym e))
        (λ e. refl)

  pub alloc-Adds :
      (t : Table) (parent : ℕ) (name : Bytes)
      → IsLinked t
      → IsGiven t.fresh parent
      → (u : Table) × (alloc lib t parent name ≡ some (u, t.fresh)) × Adds lib t parent name u
  unfolding alloc create
  alloc-Adds t parent name l given = (
    v,
    rw (alloc, e) refl,
    record {
      names = λ r h.
          set_children-name made parent g r
          ∙ ap (λ (x : Route). x.name)
              (update_ne t.routes t.fresh r (new_route lib t name) (ground arith));
      new_name =
          set_children-name made parent g t.fresh
          ∙ ap (λ (x : Route). x.name) (update_same t.routes t.fresh (new_route lib t name));
      counts = λ x.
          ap (λ (r : Route). times x (listed r.children))
            (update_same made.routes parent (record (made.routes parent) { children = g }))
          ∙ times-added lib.by t.fresh children g law more x
          ∙ ap (λ (r : Route). one_if x t.fresh + times x (listed r.children)) old;
      others = λ q d n.
          ap (λ (x : Route). x.children)
            (update_ne made.routes parent q (record (made.routes parent) { children = g }) d
              ∙ update_ne t.routes t.fresh q (new_route lib t name) n);
      childless =
          ap (λ (x : Route). listed x.children)
            (update_ne made.routes parent t.fresh (record (made.routes parent) { children = g })
                (ground arith)
              ∙ update_same t.routes t.fresh (new_route lib t name));
      ascends =
          subst (λ (r : Route). AscendsBy (children_compare lib v) (listed r.children))
            (sym (update_same made.routes parent (record (made.routes parent) { children = g })))
            (subst (AscendsBy (children_compare lib v)) (sym more) (
              AscendsBy-same (λ x. Unit {0}) (children_compare lib made) (children_compare lib v)
                (lib.by (children_compare lib made) all)
                (λ x y p q.
                  ap₂ (by_name lib) (sym (set_children-name made parent g x))
                    (sym (set_children-name made parent g y)))
                (units (lib.by (children_compare lib made) all))
                (orders (children_compare lib made) (names-IsOrder lib made order) all)));
    },
  )
    where
      made : Table
      made = placed lib t name

      children : Heap
      children = record (made.routes parent).children { compare = children_compare lib made }

      all : List ℕ
      all = listed children ++ (t.fresh ∷ [])

      grown :
          (g : Heap) × (add lib.by t.fresh children ≡ some (g, children.last + 1))
          × Fits g
          × (g.compare ≡ children.compare)
          × (listed g ≡ lib.by children.compare (listed children ++ (t.fresh ∷ [])))
      grown =
          add-listed lib.by t.fresh children law.keeps_length (placed-kids lib t name l parent).0
            l.some_given

      g : Heap
      g = grown.0

      e : add lib.by t.fresh children ≡ some (g, children.last + 1)
      e = grown.1

      more : listed g ≡ lib.by children.compare (listed children ++ (t.fresh ∷ []))
      more = grown.4

      v : Table
      v = set_children made parent g

      old : made.routes parent ≡ t.routes parent
      old = update_ne t.routes t.fresh parent (new_route lib t name) (ground (arith, given))

      units : (xs : List ℕ) → Every (λ x. Unit {0}) xs
      units [] = tt
      units (x ∷ xs) = (tt, units xs)
