-- ===== src/Routing/Unregistered.antt =====
-- A member that leaves one route: src/hub/routing.c.
use utu.Prelude.{
  ℕ, ◌+◌, ◌-◌, ◌^◌, ◌<◌, ◌≡◌, refl, sym, subst, inl, inr, Bool, true, false, Option, none, some,
  some-injective, ltb, if◌then◌else◌, ◌>>=◌, arith, bind_inv, Bool-cases, Option-cases,
}
use utu.Stackish.Node.{Node, Nodes, node, nil, cons}
use utu.Heap.Keeps.{IsPointer}
use utu.Heap.Drops.{delete-Loses}
use utu.Routing.{Table, Library, remove_member, find_child}
use utu.Routing.Paths.{is_step, max_path, find_rest, route_find, unregister}
use utu.Routing.Linked.{IsGiven, IsLinked, relinked, relinked-IsLinked}
use utu.Routing.Joined.{find_child-IsGiven}
use utu.Routing.Registered.{ChangesAt, relinked-ChangesAt}

abbrev pub less_by : ℕ → ℕ → ℕ
less_by n k = n - k

find_rest-IsGiven :
    (lib : Library) (t : Table) (i r c : ℕ) (kids : Nodes)
    → IsLinked t
    → IsGiven t.fresh r
    → find_rest lib t i r kids ≡ some c
    → IsGiven t.fresh c
unfolding find_rest
find_rest-IsGiven lib t i r c nil l g e = subst (IsGiven t.fresh) (some-injective r c e) g
find_rest-IsGiven lib t i r c (cons (node name v kids) rest) l g e =
    elim (Bool-cases (ltb i max_path)) [
      | inr h ↦ absurd (ground (arith, e, h))
      | inl h ↦
          let (q, a, b) = bind_inv next _ c (
            subst
              (λ b. (if b then next >>= (λ c. find_rest lib t (i + 1) c rest) else none) ≡ some c) h
              e) in
          find_rest-IsGiven lib t (i + 1) q c rest l (stepped q a) b
    ]
  where
    next : Option ℕ
    next = if is_step v name then find_child lib t r name else some r

    stepped : (q : ℕ) → next ≡ some q → IsGiven t.fresh q
    stepped q a = elim (Bool-cases (is_step v name)) [
      | inl s ↦
          find_child-IsGiven lib t r name q l
            (subst (λ b. (if b then find_child lib t r name else some r) ≡ some q) s a)
      | inr s ↦
          subst (IsGiven t.fresh)
            (some-injective r q
              (subst (λ b. (if b then find_child lib t r name else some r) ≡ some q) s a))
            g
    ]

pub route_find-IsGiven :
    (lib : Library) (t : Table) (parent r : ℕ) (path : Node)
    → IsLinked t
    → route_find lib t parent path ≡ some r
    → IsGiven t.fresh r
unfolding route_find
route_find-IsGiven lib t parent r (node name v kids) l e =
    let (q, a, b) = bind_inv (find_child lib t parent name) _ r e in
    find_rest-IsGiven lib t 0 q r kids l (find_child-IsGiven lib t parent name q l a) b

remove_member-ChangesAt :
    (t : Table) (r m : ℕ)
    → IsLinked t
    → IsPointer r
    → IsPointer m
    → r < t.fresh
    → (u : Table) × (remove_member t r m ≡ some u) × IsLinked u × ChangesAt less_by t r m u
unfolding remove_member
remove_member-ChangesAt t r m l pr pm f =
    let (h, n, a, (bh, ch)) = delete-Loses m (t.routes r).members pm (l.bags r) in
    let (g, k, b, (bg, cg)) = delete-Loses r (t.member_routes m) pr (l.held m) in
    (
      relinked t r m h g,
      rw (a, b) refl,
      relinked-IsLinked t r m h g less_by l f bh bg ch cg (λ n. omega arith),
      relinked-ChangesAt t r m h g less_by ch,
    )

-- What Route_unregister returns: 0 with nothing changed, or 1 with the route that is found.
abbrev pub Unregisters : Option ℕ → Table → ℕ → Option (Table × Bool) → Type 0
Unregisters point t m none = ⊥
Unregisters point t m (some (u, false)) = (point ≡ none) × (u ≡ t)
Unregisters point t m (some (u, true)) =
    (r : ℕ) × (point ≡ some r) × IsLinked u × ChangesAt less_by t r m u

-- Route_unregister never stops the process. Where Route_find finds no route it returns 0 and changes
-- nothing; otherwise it returns 1 and the route that is found has the member once less, if it had
-- it, and no other member or route changes. Routes and members stay linked.
pub unregister-Unregisters :
    (lib : Library) (t : Table) (routes member : ℕ) (according_to : Node)
    → IsLinked t
    → IsPointer member
    → t.fresh < 2 ^ 31
    → Unregisters
        (route_find lib t routes according_to)
        t
        member
        (unregister lib t routes according_to member)
unfolding unregister
unregister-Unregisters lib t routes member path l p f =
    elim (Option-cases (route_find lib t routes path)) [
      | inl e ↦ subst claim (sym e) (refl, refl)
      | inr (r, e) ↦
          let given = route_find-IsGiven lib t routes r path l e in
          let (u, a, linked, changes) =
            remove_member-ChangesAt t r member l (given.0, omega arith) p given.1 in
          subst claim (sym e) (
            subst (λ o. Unregisters (some r) t member (o >>= λ u. some (u, true))) (sym a)
              (r, refl, linked, changes))
    ]
  where
    claim : Option ℕ → Type 0
    claim o = Unregisters o t member (elim o [
      | none ↦ some (t, false)
      | some r ↦ remove_member t r member >>= λ u. some (u, true)
    ])
