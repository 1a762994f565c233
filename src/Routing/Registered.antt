-- ===== src/Routing/Registered.antt =====
-- Registering and unregistering keep the routes and the members of src/hub/routing.c linked.
use utu.Prelude.{
  ℕ, ◌+◌, ◌^◌, ◌<◌, ◌≡◌, refl, sym, ap, ◌∙◌, subst, inl, inr, Bool, true, false, Option, none, some,
  List, ◌∷◌, ◌==◌, if◌then◌else◌, ◌>>=◌, arith, Bool-cases, Option-cases,
}
use utu.Stackish.Node.{Bytes, Value, Nodes, node}
use utu.Heap.{Heap, add}
use utu.Heap.Bags.{times}
use utu.Heap.Placed.{listed}
use utu.Heap.Keeps.{IsPointer, IsSorting, one_if, add-Gains}
use utu.Routing.{Table, Library, add_member, route_add, set_members}
use utu.Routing.Paths.{collect, register}
use utu.Routing.Linked.{IsGiven, IsLinked, joined, relinked, relinked-IsLinked}
use utu.Routing.Grown.{Grown, route_add-Grown, collect-Fitting}

-- One member of one route changes.
abbrev pub ChangesAt : (ℕ → ℕ → ℕ) → Table → ℕ → ℕ → Table → Type 0
ChangesAt change t r m u =
    ((q k : ℕ)
      → joined u q k ≡ (if q == r then change (joined t q k) (one_if k m) else joined t q k))

pub relinked-ChangesAt :
    (t : Table) (r m : ℕ) (h g : Heap) (change : ℕ → ℕ → ℕ)
    → ((k : ℕ) → times k (listed h) ≡ change (joined t r k) (one_if k m))
    → ChangesAt change t r m (relinked t r m h g)
relinked-ChangesAt t r m h g change c q k = elim (Bool-cases (q == r)) [
  | inl e ↦ subst claim (sym e) (c k ∙ ap (λ x. change (joined t x k) (one_if k m)) (sym (same e)))
  | inr e ↦ subst claim (sym e) refl
]
  where
    same : (q == r) ≡ true → q ≡ r
    same e = ground arith

    claim : Bool → Type 0
    claim b =
        times k (listed (if b then record (t.routes r) { members = h } else t.routes q).members)
        ≡ (if b then change (joined t q k) (one_if k m) else joined t q k)

abbrev pub more_by : ℕ → ℕ → ℕ
more_by n k = k + n

-- What registering makes: nothing, or the member once more in one route.
abbrev pub Joins : Table → ℕ → Table → Bool → Type 0
Joins t m u false = (r k : ℕ) → joined u r k ≡ joined t r k
Joins t m u true = (r : ℕ) × ChangesAt more_by t r m u

-- A table after a call that grew it, and the call's result.
abbrev pub Registers : Table → ℕ → Option (Table × Bool) → Type 0
Registers t m none = ⊥
Registers t m (some (u, b)) = IsLinked u × Joins t m u b

module _ (lib : Library) (law : IsSorting lib.by) where
  -- A member that is added to a route which was made.
  add_member-Registers :
      (t : Table) (r m : ℕ)
      → IsLinked t
      → IsPointer r
      → IsPointer m
      → r < t.fresh
      → Registers t m (add_member lib t r m)
  unfolding add_member
  add_member-Registers t r m l pr pm f = elim (Bool-cases (t.routes r).is_internal_callback) [
    | inl e ↦
        subst (λ b. Registers t m (if b then some (t, false) else join)) (sym e) (l, λ r k. refl)
    | inr e ↦
        let (h, a, (bh, ch)) = add-Gains lib.by m (t.routes r).members law pm (l.bags r) in
        let (g, b, (bg, cg)) = add-Gains lib.by r (t.member_routes m) law pr (l.held m) in
        let linked = relinked-IsLinked t r m h g more_by l f bh bg ch cg (λ n. omega arith) in
        let eq : join ≡ some (relinked t r m h g, true) = rw (a, b) refl in
        subst (λ c. Registers t m (if c then some (t, false) else join)) (sym e)
          (subst (Registers t m) (sym eq) (linked, (r, relinked-ChangesAt t r m h g more_by ch)))
  ]
    where
      join : Option (Table × Bool)
      join = add lib.by m (t.routes r).members >>= λ (h, n).
          add lib.by r ((set_members t r h).member_routes m) >>= λ (g, k).
          some (relinked t r m h g, true)

  Registers-Grown :
      (n : ℕ) (t u : Table) (m : ℕ) (o : Option (Table × Bool))
      → Grown n t u
      → Registers u m o
      → Registers t m o
  Registers-Grown n t u m none g h = h
  Registers-Grown n t u m (some (v, false)) g h =
      (h.0, λ r k. h.1 r k ∙ ap (λ x. times k (listed x)) (g.4 r))
  Registers-Grown n t u m (some (v, true)) g h = (
    h.0,
    (
      h.1.0,
      λ q k.
          h.1.1 q k
          ∙ ap (λ x. if q == h.1.0 then more_by x (one_if k m) else x)
              (ap (λ x. times k (listed x)) (g.4 q)),
    ),
  )

  -- Route_register never stops the process on a node that has a name. It either returns 0 and every
  -- route has the members it had, or returns 1 and one route has the member once more than before. A
  -- route has a member as often as the member has the route, before and after.
  pub register-Registers :
      (t : Table) (routes member : ℕ) (name : Bytes) (v : Value) (kids : Nodes)
      → IsLinked t
      → IsGiven t.fresh routes
      → IsPointer member
      → t.fresh + 30 < 2 ^ 31
      → Registers t member (register lib t routes (node (some name) v kids) member)
  unfolding register
  register-Registers t routes member name v kids l g p f = elim (Option-cases (collect 1 kids)) [
    | inl e ↦ subst after_path (sym e) (l, λ r k. refl)
    | inr (names, e) ↦
        let (named, short) = collect-Fitting 1 kids names (omega arith) e in
        let (u, r, a, grown, given) =
          route_add-Grown lib law t routes (some name ∷ names) l g named in
        let here : r < 2 ^ 31 = omega arith in
        subst after_path (sym e) (
          subst (λ o. Registers t member ((o >>= λ (u, r). some (u, some r)) >>= finish)) (sym a)
            (Registers-Grown _ t u member (add_member lib u r member) grown
              (add_member-Registers u r member grown.0 (given.0, here) p given.1)))
  ]
    where
      finish : (Table × Option ℕ) → Option (Table × Bool)
      finish (u, none) = some (u, false)
      finish (u, some r) = add_member lib u r member

      after_path : Option (List (Option Bytes)) → Type 0
      after_path o = Registers t member (
          (elim o [
            | none ↦ some (t, none)
            | some names ↦ route_add lib t routes (some name ∷ names) >>= λ (u, r). some (u, some r)
          ])
          >>= λ (u, point). elim point [
            | none ↦ some (u, false)
            | some r ↦ add_member lib u r member
          ])
