-- ===== src/Routing/Grown.antt =====
-- The routes along a path are made and leave the members of src/hub/routing.c as they are.
use utu.Prelude.{
  ℕ, ◌+◌, ◌≤◌, ◌<◌, ◌≡◌, refl, sym, ◌∙◌, subst, inl, inr, true, Option, none, some, some-injective,
  List, [], ◌∷◌, length, ltb, if◌then◌else◌, ◌>>=◌, arith, bind_inv, Bool-cases, Option-cases,
}
use utu.Stackish.Node.{Bytes, Value, Nodes, node, nil, cons, number, string, blob, floating, group}
use utu.Stackish.Print.{c_string}
use utu.Heap.Keeps.{IsSorting}
use utu.Routing.{Table, Library, find_child, find_or_add, route_add}
use utu.Routing.Paths.{max_path, is_step, collect}
use utu.Routing.Linked.{IsGiven, IsLinked}
use utu.Routing.Joined.{find_child-IsGiven, alloc-IsLinked}

-- A table with more routes and the same members.
abbrev pub Grown : ℕ → Table → Table → Type 0
Grown n t u =
    IsLinked u
    × (t.fresh ≤ u.fresh)
    × (u.fresh ≤ t.fresh + n)
    × ((m : ℕ) → u.member_routes m ≡ t.member_routes m)
    × ((r : ℕ) → (u.routes r).members ≡ (t.routes r).members)

Grown-Grown : (a b : ℕ) (t u v : Table) → Grown a t u → Grown b u v → Grown (a + b) t v
Grown-Grown a b t u v g h =
    (h.0, omega arith, omega arith, (λ m. h.3 m ∙ g.3 m), λ r. h.4 r ∙ g.4 r)

abbrev pub AllNamed : List (Option Bytes) → Type 0
AllNamed [] = Unit {0}
AllNamed (none ∷ names) = ⊥
AllNamed (some _ ∷ names) = AllNamed names

module _ (lib : Library) (law : IsSorting lib.by) where
  find_or_add-Grown :
      (t : Table) (parent : ℕ) (name : Bytes)
      → IsLinked t
      → (u : Table) × (r : ℕ) × (find_or_add lib t parent (some name) ≡ some (u, r))
        × Grown 1 t u
        × IsGiven u.fresh r
  unfolding find_or_add
  find_or_add-Grown t parent name l = elim (Option-cases (find_child lib t parent (some name))) [
    | inl e ↦
        let (u, made, linked, next, held, members) =
          alloc-IsLinked lib law t parent (c_string name) l in
        (
          u,
          t.fresh,
          rw (find_or_add, e, made) refl,
          (linked, omega arith, omega arith, held, members),
          (l.some_given, omega arith),
        )
    | inr (r, e) ↦ (
      t,
      r,
      rw (find_or_add, e) refl,
      (l, omega arith, omega arith, (λ m. refl), (λ q. refl)),
      find_child-IsGiven lib t parent (some name) r l e,
    )
  ]

  pub route_add-Grown :
      (t : Table) (parent : ℕ) (names : List (Option Bytes))
      → IsLinked t
      → IsGiven t.fresh parent
      → AllNamed names
      → (u : Table) × (r : ℕ) × (route_add lib t parent names ≡ some (u, r))
        × Grown (length names) t u
        × IsGiven u.fresh r
  unfolding route_add
  route_add-Grown t parent [] l g a =
      (t, parent, refl, (l, omega arith, omega arith, (λ m. refl), (λ q. refl)), g)
  route_add-Grown t parent (none ∷ names) l g a = absurd a
  route_add-Grown t parent (some name ∷ names) l g a =
      let (u, r, e, grown, given) = find_or_add-Grown t parent name l in
      let (v, q, h, more, last) = route_add-Grown u r names grown.0 given a in
      (
        v,
        q,
        rw (e, h) refl,
        (
          more.0,
          omega arith,
          omega arith,
          (λ m. more.3 m ∙ grown.3 m),
          (λ k. more.4 k ∙ grown.4 k),
        ),
        last,
      )

pub is_step-named :
    (v : Value) (name : Option Bytes) → is_step v name ≡ true → (w : Bytes) × (name ≡ some w)
is_step-named group none e = cc
is_step-named group (some w) e = (w, refl)
is_step-named (number _) name e = cc
is_step-named (string _) name e = cc
is_step-named (blob _) name e = cc
is_step-named (floating _) name e = cc

-- The path of a node has names only, and fits into the array.
abbrev pub Fitting : ℕ → List (Option Bytes) → Type 0
Fitting i names = AllNamed names × (i + length names ≤ 30)

put_step :
    (i : ℕ) (v : Value) (name : Option Bytes) (names : List (Option Bytes))
    → i < 30
    → Fitting (if is_step v name then i + 1 else i) names
    → Fitting i (if is_step v name then name ∷ names else names)
put_step i v name names l a = elim (Bool-cases (is_step v name)) [
  | inl e ↦
      let (w, n) = is_step-named v name e in
      subst (λ b. Fitting i (if b then name ∷ names else names)) (sym e)
        (subst (λ x. Fitting i (x ∷ names)) (sym n)
          (before w (subst (λ b. Fitting (if b then i + 1 else i) names) e a)))
  | inr e ↦
      subst (λ b. Fitting i (if b then name ∷ names else names)) (sym e)
        (subst (λ b. Fitting (if b then i + 1 else i) names) e a)
]
  where
    before : (w : Bytes) → Fitting (i + 1) names → Fitting i (some w ∷ names)
    before w a = (a.0, omega arith)

-- A path that is collected goes on behind its first sibling.
pub collect_inv :
    (i : ℕ) (name : Option Bytes) (v : Value) (kids rest : Nodes) (names : List (Option Bytes))
    → collect i (cons (node name v kids) rest) ≡ some names
    → (i < 30)
      × (ns : List (Option Bytes)) × (collect (if is_step v name then i + 1 else i) rest ≡ some ns)
      × ((if is_step v name then name ∷ ns else ns) ≡ names)
unfolding collect
collect_inv i name v kids rest names e = elim (Bool-cases (ltb i max_path)) [
  | inr h ↦ absurd (ground (arith, e, h))
  | inl h ↦
      let within =
        subst
          (λ b.
            (if b then more >>= (λ ns. some (if is_step v name then name ∷ ns else ns)) else none)
            ≡ some names)
          h e in
      let (ns, a, b) = bind_inv more _ names within in
      (ground arith, ns, a, some-injective _ names b)
]
  where
    more : Option (List (Option Bytes))
    more = collect (if is_step v name then i + 1 else i) rest

pub collect-Fitting :
    (i : ℕ) (kids : Nodes) (names : List (Option Bytes))
    → i ≤ 30
    → collect i kids ≡ some names
    → Fitting i names
unfolding collect
collect-Fitting i nil names l e = subst (Fitting i) (some-injective [] names e) (tt, omega arith)
collect-Fitting i (cons (node name v kids) rest) names l e =
    let (below, ns, a, b) = collect_inv i name v kids rest names e in
    subst (Fitting i) b (
      put_step i v name ns below
        (collect-Fitting (if is_step v name then i + 1 else i) rest ns (ground (arith, below)) a))
