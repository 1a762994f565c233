-- ===== src/Routing/Kept.antt =====
-- Children keep their names and places when routes are added: src/hub/routing.c.
use utu.Prelude.{
  ℕ, ◌≤◌, ◌<◌, ◌≡◌, sym, ap, ap₂, ◌∙◌, subst, inl, inr, true, false, ◌==◌, arith, Bool-cases,
}
use Prim.Native.Nat.{eq}
use utu.Stackish.Node.{Bytes}
use utu.Heap.Bags.{times}
use utu.Heap.Placed.{listed}
use utu.Heap.Keeps.{times_of_every}
use utu.Routing.{Table, Library, children_compare}
use utu.Routing.Linked.{IsGiven, IsLinked}
use utu.Routing.Named.{IsOrder, AscendsBy, by_name, IsNamed, IsChild}
use utu.Routing.Children.{Adds, AscendsBy-same}

-- A table with the children of another and perhaps more.
pub record Keeps (lib : Library) (t u : Table) : Type 0 where
  pub linked : IsLinked u
  pub named : (p : ℕ) → IsNamed lib u p
  pub fresh : t.fresh ≤ u.fresh
  pub child :
      (p : ℕ) (name : Bytes) (r : ℕ) → p < t.fresh → IsChild lib t p name r → IsChild lib u p name r

pub Keeps-Keeps : (lib : Library) (t u v : Table) → Keeps lib t u → Keeps lib u v → Keeps lib t v
Keeps-Keeps lib t u v a b = record {
  linked = b.linked;
  named = b.named;
  fresh = omega (arith, a.fresh, b.fresh);
  child = λ p name r f c. b.child p name r (omega (arith, a.fresh)) (a.child p name r f c);
}

child-IsGiven :
    (t : Table) (p x : ℕ)
    → IsLinked t
    → 0 < times x (listed (t.routes p).children)
    → IsGiven t.fresh x
child-IsGiven t p x l h =
    times_of_every (IsGiven t.fresh) (listed (t.routes p).children) x (l.kids p).1 h

-- Children that are the same are still named, where the names are.
pub same-IsNamed :
    (lib : Library) (t u : Table) (p : ℕ)
    → ((x y : ℕ)
        → IsGiven t.fresh x
        → IsGiven t.fresh y
        → children_compare lib t x y ≡ children_compare lib u x y)
    → IsLinked t
    → (u.routes p).children ≡ (t.routes p).children
    → IsNamed lib t p
    → IsNamed lib u p
same-IsNamed lib t u p s l e n = record {
  ascends =
      subst (λ h. AscendsBy (children_compare lib u) (listed h)) (sym e)
        (AscendsBy-same (IsGiven t.fresh) (children_compare lib t) (children_compare lib u)
          (listed (t.routes p).children) s (l.kids p).1 n.ascends);
  distinct = λ x y a b q.
      let a2 = subst (λ h. 0 < times x (listed h)) e a in
      let b2 = subst (λ h. 0 < times y (listed h)) e b in
      n.distinct x y a2 b2 (s x y (child-IsGiven t p x l a2) (child-IsGiven t p y l b2) ∙ q);
}

module _ (lib : Library) (order : IsOrder (by_name lib)) where
  Adds-same :
      (t u : Table) (parent : ℕ) (name : Bytes)
      → Adds lib t parent name u
      → (x y : ℕ) → IsGiven t.fresh x
      → IsGiven t.fresh y
      → children_compare lib t x y ≡ children_compare lib u x y
  Adds-same t u parent name a x y g h = sym (ap₂ (by_name lib) (a.names x g.1) (a.names y h.1))

  -- The new name is no child's, so that no two children have one name.
  Adds-distinct :
      (t u : Table) (parent : ℕ) (name : Bytes)
      → Adds lib t parent name u
      → IsLinked t
      → IsNamed lib t parent
      → ((r : ℕ) → ¬ IsChild lib t parent name r)
      → (x y : ℕ) → 0 < times x (listed (u.routes parent).children)
      → 0 < times y (listed (u.routes parent).children)
      → children_compare lib u x y ≡ eq
      → x ≡ y
  Adds-distinct t u parent name a l n miss x y hx hy q = elim (Bool-cases (x == t.fresh)) [
    | inl ex ↦ elim (Bool-cases (y == t.fresh)) [
      | inl ey ↦ same x ex ∙ sym (same y ey)
      | inr ey ↦
          let old = before y hy ey in
          let given = child-IsGiven t parent y l old in
          absurd (
            miss y (
              old,
              turned (u.routes y).name name (t.routes y).name (a.names y given.1) (
                  subst (λ w. by_name lib w (u.routes y).name ≡ eq) a.new_name
                    (subst (λ z. children_compare lib u z y ≡ eq) (same x ex) q)),
            ))
    ]
    | inr ex ↦
        let older = before x hx ex in
        let gx = child-IsGiven t parent x l older in
        elim (Bool-cases (y == t.fresh)) [
          | inl ey ↦ absurd (
              miss x (
                older,
                subst (λ w. by_name lib (t.routes x).name w ≡ eq) a.new_name
                    (subst (λ w. by_name lib w (u.routes t.fresh).name ≡ eq) (a.names x gx.1)
                      (subst (λ z. children_compare lib u x z ≡ eq) (same y ey) q)),
              ))
          | inr ey ↦
              let old = before y hy ey in
              n.distinct x y older old
                (Adds-same t u parent name a x y gx (child-IsGiven t parent y l old) ∙ q)
        ]
  ]
    where
      same : (z : ℕ) → (z == t.fresh) ≡ true → z ≡ t.fresh
      same z e = ground arith

      before :
          (z : ℕ)
          → 0 < times z (listed (u.routes parent).children)
          → (z == t.fresh) ≡ false
          → 0 < times z (listed (t.routes parent).children)
      before z h e = ground (arith, a.counts z)

      turned : (b c d : Bytes) → b ≡ d → by_name lib c b ≡ eq → by_name lib d c ≡ eq
      turned b c d e h = order.equal d c d (order.same d) (subst (λ w. by_name lib c w ≡ eq) e h)

  pub Adds-IsNamed :
      (t u : Table) (parent : ℕ) (name : Bytes)
      → Adds lib t parent name u
      → IsLinked t
      → ((p : ℕ) → IsNamed lib t p)
      → ((r : ℕ) → ¬ IsChild lib t parent name r)
      → (p : ℕ) → IsNamed lib u p
  Adds-IsNamed t u parent name a l n miss p = elim (Bool-cases (p == parent)) [
    | inl e ↦ subst (IsNamed lib u) (sym (same p parent e)) (record {
      ascends = a.ascends;
      distinct = Adds-distinct t u parent name a l (n parent) miss;
    })
    | inr e ↦ elim (Bool-cases (p == t.fresh)) [
      | inl d ↦ subst (IsNamed lib u) (sym (same p t.fresh d)) (record {
        ascends = subst (AscendsBy (children_compare lib u)) (sym a.childless) tt;
        distinct = λ x y h. absurd (ground (arith, ap (times x) a.childless));
      })
      | inr d ↦ same-IsNamed lib t u p (Adds-same t u parent name a) l (a.others p e d) (n p)
    ]
  ]
    where
      same : (x y : ℕ) → (x == y) ≡ true → x ≡ y
      same x y e = ground arith

  pub Adds-IsChild :
      (t u : Table) (parent : ℕ) (name : Bytes)
      → Adds lib t parent name u
      → IsLinked t
      → IsGiven t.fresh parent
      → (p : ℕ) (n : Bytes) (r : ℕ) → p < t.fresh
      → IsChild lib t p n r
      → IsChild lib u p n r
  Adds-IsChild t u parent name a l g p n r f (there, e) =
      (stays, subst (λ w. by_name lib w n ≡ eq) (sym (a.names r (child-IsGiven t p r l there).1)) e)
    where
      same : (p == parent) ≡ true → p ≡ parent
      same d = ground arith

      stays : 0 < times r (listed (u.routes p).children)
      stays = elim (Bool-cases (p == parent)) [
        | inl d ↦
            subst (λ q. 0 < times r (listed (u.routes q).children)) (sym (same d))
              (omega (
                arith,
                a.counts r,
                subst (λ q. 0 < times r (listed (t.routes q).children)) (same d) there,
              ))
        | inr d ↦ subst (λ h. 0 < times r (listed h)) (sym (a.others p d (ground arith))) there
      ]
