-- ===== src/Routing/Findable.antt =====
-- `Route_find` after `Route_register` of the same message: src/hub/routing.c.
use Prim.Native.Nat.{eq}
use utu.Prelude.{
  ℕ, ◌+◌, ◌^◌, ◌≤◌, ◌<◌, ◌≡◌, refl, sym, ap, ap₂, ◌∙◌, subst, inl, inr, Bool, true, false, Option,
  none, some, List, [], ◌∷◌, if◌then◌else◌, ◌>>=◌, arith, Bool-cases, Option-cases,
}
use utu.Stackish.Node.{Bytes, Value, Node, Nodes, node}
use utu.Stackish.Print.{c_string}
use utu.Heap.{Heap, add}
use utu.Heap.Find.{Fits}
use utu.Heap.Bags.{times}
use utu.Heap.Placed.{listed}
use utu.Heap.Keeps.{IsPointer, IsSorting, one_if, add-Gains}
use utu.Routing.{Route, Table, Library, add_member, route_add, set_members}
use utu.Routing.Paths.{collect, register, route_find}
use utu.Routing.Linked.{IsGiven, IsLinked, update_at, joined, relinked}
use utu.Routing.Grown.{route_add-Grown, collect-Fitting}
use utu.Stackish.Destroy.{siblings}
use utu.Routing.Named.{IsOrder, by_name}
use utu.Routing.Children.{Orders}
use utu.Routing.Kept.{same-IsNamed}
use utu.Routing.Found.{IsWay, AreNamed, route_add-IsWay}
use utu.Routing.Ways.{ArePlainNodes, collect-ArePlain, way-found}

-- A table with the same routes and children.
abbrev Alike : Table → Table → Type 0
Alike t u =
    (u.fresh ≡ t.fresh)
    × ((q : ℕ) → (u.routes q).name ≡ (t.routes q).name)
    × ((q : ℕ) → (u.routes q).children ≡ (t.routes q).children)

relinked-Alike : (t : Table) (r m : ℕ) (h g : Heap) → Alike t (relinked t r m h g)
relinked-Alike t r m h g = (
  refl,
  (λ q.
      update_at (λ (x : Route). x.name ≡ (t.routes q).name) t.routes r q
        (record (t.routes r) { members = h }) (λ e. ap (λ x. (t.routes x).name) (sym e))
        (λ e. refl)),
  λ q.
      update_at (λ (x : Route). x.children ≡ (t.routes q).children) t.routes r q
        (record (t.routes r) { members = h }) (λ e. ap (λ x. (t.routes x).children) (sym e))
        (λ e. refl),
)

Alike-IsNamed :
    (lib : Library) (t u : Table) → Alike t u → IsLinked t → AreNamed lib t → AreNamed lib u
Alike-IsNamed lib t u a l n p =
    same-IsNamed lib t u p (λ x y g h. sym (ap₂ (by_name lib) (a.1 x) (a.1 y))) l (a.2 p) (n p)

Alike-IsWay :
    (lib : Library) (t u : Table) (p r : ℕ) (names : List (Option Bytes))
    → Alike t u
    → IsWay lib t p names r
    → IsWay lib u p names r
Alike-IsWay lib t u p r [] a w = w
Alike-IsWay lib t u p r (none ∷ names) a w = w
Alike-IsWay lib t u p r (some name ∷ names) a (q, given, (there, same), rest) = (
  q,
  (given.0, omega (arith, given, a.0)),
  (
    subst (λ h. 0 < times q (listed h)) (sym (a.2 p)) there,
    subst (λ b. by_name lib b name ≡ eq) (sym (a.1 q)) same,
  ),
  Alike-IsWay lib t u q r names a rest,
)

-- What adding a member leaves of the routes.
abbrev AddsMember : Table → ℕ → ℕ → Option (Table × Bool) → Type 0
AddsMember t r m none = ⊥
AddsMember t r m (some (u, false)) = Alike t u
AddsMember t r m (some (u, true)) = Alike t u × (joined u r m ≡ joined t r m + 1)

module _ (lib : Library) (law : IsSorting lib.by) where
  add_member-AddsMember :
      (t : Table) (r m : ℕ)
      → IsLinked t
      → IsPointer r
      → IsPointer m
      → AddsMember t r m (add_member lib t r m)
  unfolding add_member
  add_member-AddsMember t r m l pr pm = elim (Bool-cases (t.routes r).is_internal_callback) [
    | inl e ↦
        subst (λ b. AddsMember t r m (if b then some (t, false) else join)) (sym e)
          (refl, (λ q. refl), (λ q. refl))
    | inr e ↦
        let (h, a, (bh, ch)) = add-Gains lib.by m (t.routes r).members law pm (l.bags r) in
        let (g, b, (bg, cg)) = add-Gains lib.by r (t.member_routes m) law pr (l.held m) in
        let joins : join ≡ some (relinked t r m h g, true) = rw (a, b) refl in
        subst (λ c. AddsMember t r m (if c then some (t, false) else join)) (sym e)
          (subst (AddsMember t r m) (sym joins) (relinked-Alike t r m h g, more r m h g (ch m)))
  ]
    where
      join : Option (Table × Bool)
      join = add lib.by m (t.routes r).members >>= λ (h, n).
          add lib.by r ((set_members t r h).member_routes m) >>= λ (g, k).
          some (relinked t r m h g, true)

      more :
          (r m : ℕ) (h g : Heap)
          → times m (listed h) ≡ one_if m m + times m (listed (t.routes r).members)
          → joined (relinked t r m h g) r m ≡ joined t r m + 1
      more r m h g c = ground (arith, c)

-- What registering leaves: children under their names, and a route that is found by the same message
-- and has the member.
abbrev pub Findable : Library → Table → Node → ℕ → ℕ → Option (Table × Bool) → Type 0
Findable lib t path routes m none = ⊥
Findable lib t path routes m (some (u, false)) = AreNamed lib u
Findable lib t path routes m (some (u, true)) =
    AreNamed lib u
    × (r : ℕ) × (route_find lib u routes path ≡ some r)
    × (joined u r m ≡ joined t r m + 1)

module _ (lib : Library) (law : IsSorting lib.by) (orders : Orders lib.by)
    (order : IsOrder (by_name lib)) where
  -- The member is added where a way has led.
  add_member-Findable :
      (t u : Table) (routes r m : ℕ) (name : Bytes) (v : Value) (kids : Nodes)
      (names : List (Option Bytes))
      → IsLinked u
      → AreNamed lib u
      → IsPointer r
      → IsPointer m
      → siblings kids ≤ 30
      → collect 1 kids ≡ some names
      → IsWay lib u routes (some name ∷ names) r
      → ((q : ℕ) → joined u q m ≡ joined t q m)
      → Findable lib t (node (some name) v kids) routes m (add_member lib u r m)
  add_member-Findable t u routes r m name v kids names l n pr pm s e w same =
      at (add_member lib u r m) (add_member-AddsMember lib law u r m l pr pm)
    where
      found : (x : Table) → Alike u x → route_find lib x routes (node (some name) v kids) ≡ some r
      found x a =
          way-found lib x routes r name v kids names order
            (λ p. subst Fits (sym (a.2 p)) (l.kids p).0) (Alike-IsNamed lib u x a l n) s e
            (Alike-IsWay lib u x routes r (some name ∷ names) a w)

      at :
          (o : Option (Table × Bool))
          → AddsMember u r m o
          → Findable lib t (node (some name) v kids) routes m o
      at none a = a
      at (some (x, false)) a = Alike-IsNamed lib u x a l n
      at (some (x, true)) (a, more) =
          (Alike-IsNamed lib u x a l n, r, found x a, more ∙ ap (λ k. k + 1) (same r))

  -- Where the names of a message have no null character and it has at most 30 children, Route_find of
  -- the message after Route_register of it has returned 1 finds a route that has the member once more
  -- than before. Whatever Route_register returns, the children of each route stay sorted by names
  -- that differ.
  pub register-Findable :
      (t : Table) (routes member : ℕ) (name : Bytes) (v : Value) (kids : Nodes)
      → IsLinked t
      → AreNamed lib t
      → IsGiven t.fresh routes
      → IsPointer member
      → t.fresh + 30 < 2 ^ 31
      → c_string name ≡ name
      → ArePlainNodes kids
      → siblings kids ≤ 30
      → Findable lib t
          (node (some name) v kids)
          routes
          member
          (register lib t routes (node (some name) v kids) member)
  unfolding register
  register-Findable t routes member name v kids l n g p f c d s =
      elim (Option-cases (collect 1 kids)) [
        | inl e ↦ subst after_path (sym e) n
        | inr (names, e) ↦
            let (u, r, a, keeps, way) =
              route_add-IsWay lib law orders order t routes (some name ∷ names) l n g
                (c, collect-ArePlain 1 kids names d e) in
            let (named, short) = collect-Fitting 1 kids names (omega arith) e in
            let (x, q, b, grown, given) =
              route_add-Grown lib law t routes (some name ∷ names) l g named in
            let at_r : q ≡ r = ap (route q) (sym b ∙ a) in
            let at_u : x ≡ u = ap (table x) (sym b ∙ a) in
            subst after_path (sym e) (
              subst
                (λ o.
                  Findable lib t path routes member ((o >>= λ (u, r). some (u, some r)) >>= finish))
                (sym a)
                (add_member-Findable t u routes r member name v kids names keeps.linked keeps.named
                  (subst IsPointer at_r (given.0, omega arith)) p s e way
                  (λ q.
                    subst (λ y. joined y q member ≡ joined t q member) at_u
                      (ap (λ h. times member (listed h)) (grown.4 q)))))
      ]
    where
      path : Node
      path = node (some name) v kids

      table : Table → Option (Table × ℕ) → Table
      table d none = d
      table d (some (x, q)) = x

      route : ℕ → Option (Table × ℕ) → ℕ
      route d none = d
      route d (some (x, q)) = q

      finish : (Table × Option ℕ) → Option (Table × Bool)
      finish (u, none) = some (u, false)
      finish (u, some r) = add_member lib u r member

      after_path : Option (List (Option Bytes)) → Type 0
      after_path o = Findable lib t path routes member (
          (elim o [
            | none ↦ some (t, none)
            | some names ↦ route_add lib t routes (some name ∷ names) >>= λ (u, r). some (u, some r)
          ])
          >>= λ (u, point). elim point [
            | none ↦ some (u, false)
            | some r ↦ add_member lib u r member
          ])
