-- ===== src/Routing/Left.antt =====
-- A member that leaves all its routes: src/hub/routing.c.
use utu.Prelude.{
  ℕ, ◌+◌, ◌-◌, ◌≡◌, refl, sym, ap, ◌∙◌, subst, inl, inr, Bool, true, false, Option, none, some,
  List, [], ◌∷◌, ◌==◌, if◌then◌else◌, ◌>>=◌, arith, Bool-cases,
}
use utu.Heap.{Heap, create, clear}
use utu.Heap.Find.{Fits}
use utu.Heap.Pointers.{create_pointers}
use utu.Heap.Bags.{times, Every}
use utu.Heap.Placed.{listed}
use utu.Heap.Keeps.{IsPointer, IsBag, one_if}
use utu.Heap.Drops.{delete-Loses}
use utu.Routing.{Route, Table, leave_all, unregister_all, set_members, set_member_routes}
use utu.Routing.Linked.{IsGiven, IsLinked, update_at, joined, holds}

-- How much a member loses in a route.
abbrev lost : ℕ → ℕ → ℕ → List ℕ → ℕ
lost q k m rs = if k == m then times q rs else 0

-- A table whose routes have lost a member as often as they stand in a list.
record Leaves (t : Table) (m : ℕ) (rs : List ℕ) (u : Table) : Type 0 where
  bags : (q : ℕ) → IsBag (u.routes q).members
  counts : (q k : ℕ) → joined u q k ≡ joined t q k - lost q k m rs
  children : (q : ℕ) → (u.routes q).children ≡ (t.routes q).children
  others : (q : ℕ) → times q rs ≡ 0 → (u.routes q).members ≡ (t.routes q).members
  held : (k : ℕ) → u.member_routes k ≡ t.member_routes k
  fresh : u.fresh ≡ t.fresh

dropped-joined :
    (t : Table) (r m : ℕ) (h : Heap)
    → ((k : ℕ) → times k (listed h) ≡ joined t r k - one_if k m)
    → (q k : ℕ) → joined (set_members t r h) q k ≡ joined t q k - (if k == m then one_if q r else 0)
dropped-joined t r m h c q k = elim (Bool-cases (q == r)) [
  | inl e ↦ subst claim (sym e) (c k ∙ ap (λ x. joined t x k - one_if k m) (sym (same e)))
  | inr e ↦ subst claim (sym e) (kept (joined t q k) (k == m))
]
  where
    same : (q == r) ≡ true → q ≡ r
    same e = ground arith

    kept : (n : ℕ) (b : Bool) → n ≡ n - (if b then 0 else 0)
    kept n true = omega arith
    kept n false = omega arith

    claim : Bool → Type 0
    claim b =
        times k (listed (if b then record (t.routes r) { members = h } else t.routes q).members)
        ≡ joined t q k - (if k == m then (if b then 1 else 0) else 0)

less_by_both :
    (n a b : ℕ) (is : Bool)
    → n - (if is then a else 0) - (if is then b else 0) ≡ n - (if is then a + b else 0)
less_by_both n a b true = omega arith
less_by_both n a b false = omega arith

stands : (q r : ℕ) (rs : List ℕ) → q ≡ r → times q (r ∷ rs) ≡ 0 → ⊥
stands q r rs d z = ground arith

leave_all-Leaves :
    (t : Table) (m : ℕ) (rs : List ℕ)
    → ((q : ℕ) → IsBag (t.routes q).members)
    → IsPointer m
    → (u : Table) × (leave_all t m rs ≡ some u) × Leaves t m rs u
unfolding leave_all
leave_all-Leaves t m [] b p = (
  t,
  refl,
  record {
    bags = b;
    counts = λ q k. ground arith;
    children = λ q. refl;
    others = λ q e. refl;
    held = λ k. refl;
    fresh = refl;
  },
)
leave_all-Leaves t m (r ∷ rs) b p =
    let (h, n, e, (bag, c)) = delete-Loses m (t.routes r).members p (b r) in
    let now = set_members t r h in
    let (u, f, l) =
      leave_all-Leaves now m rs
        (λ q.
          update_at (λ (x : Route). IsBag x.members) t.routes r q
            (record (t.routes r) { members = h }) (λ d. bag) (λ d. b q))
        p in
    (
      u,
      rw (e, f) refl,
      record {
        bags = l.bags;
        counts = λ q k.
            l.counts q k
            ∙ ap (λ x. x - lost q k m rs) (dropped-joined t r m h c q k)
            ∙ less_by_both (joined t q k) (one_if q r) (times q rs) (k == m);
        children = λ q.
            l.children q
            ∙ update_at (λ (x : Route). x.children ≡ (t.routes q).children) t.routes r q
                (record (t.routes r) { members = h }) (λ d. ap (λ x. (t.routes x).children) (sym d))
                (λ d. refl);
        others = λ q z.
            l.others q (omega arith)
            ∙ update_at (λ (x : Route). x.members ≡ (t.routes q).members) t.routes r q
                (record (t.routes r) { members = h }) (λ d. absurd (stands q r rs d z)) (λ d. refl);
        held = l.held;
        fresh = l.fresh;
      },
    )

-- What a member leaves behind.
abbrev pub HasLeft : Table → ℕ → Option Table → Type 0
HasLeft t m none = ⊥
HasLeft t m (some u) =
    IsLinked u
    × ((r : ℕ) → joined u r m ≡ 0)
    × ((r k : ℕ) → (k == m) ≡ false → joined u r k ≡ joined t r k)

clear-IsBag : (h : Heap) → IsBag h → IsBag (clear h)
clear-IsBag h b = ((omega arith, b.0.1, b.0.2), b.1, tt, tt)

all_lost : (m n a : ℕ) → n ≡ a → n - (if m == m then a else 0) ≡ 0
all_lost m n a e = ground arith

none_lost : (k m n a : ℕ) → (k == m) ≡ false → n - (if k == m then a else 0) ≡ n
none_lost k m n a e = ground arith

times-create_pointers : (m : ℕ) → times m (listed create_pointers) ≡ 0
unfolding create_pointers create
times-create_pointers m = refl

left-IsLinked :
    (t u : Table) (m : ℕ)
    → IsLinked t
    → Leaves t m (listed (t.member_routes m)) u
    → HasLeft t m (some (set_member_routes u m (clear (u.member_routes m))))
left-IsLinked t u m l v = (
  record {
    bags = v.bags;
    held = λ k.
        update_at IsBag u.member_routes m k (clear (u.member_routes m))
          (λ d. clear-IsBag (u.member_routes m) (bag m)) (λ d. bag k);
    agree = λ q k.
        update_at (λ h. joined u q k ≡ times q (listed h)) u.member_routes m k
          (clear (u.member_routes m)) (λ d. ap (joined u q) d ∙ gone q)
          (λ d. stays q k d ∙ l.agree q k ∙ sym (ap (λ h. times q (listed h)) (v.held k)));
    kids = λ q.
        subst (λ n. Fits (u.routes q).children × Every (IsGiven n) (listed (u.routes q).children))
          (sym v.fresh)
          (subst (λ h. Fits h × Every (IsGiven t.fresh) (listed h)) (sym (v.children q))
            (l.kids q));
    unused = λ q o.
        let old = l.unused q (omega (arith, v.fresh)) in
        v.others q (sym (l.agree q m) ∙ ap (λ h. times m (listed h)) old ∙ times-create_pointers m)
        ∙ old;
    some_given = omega (arith, v.fresh, l.some_given);
  },
  gone,
  stays,
)
  where
    bag : (k : ℕ) → IsBag (u.member_routes k)
    bag k = subst IsBag (sym (v.held k)) (l.held k)

    gone : (q : ℕ) → joined u q m ≡ 0
    gone q = v.counts q m ∙ all_lost m (joined t q m) (holds t m q) (l.agree q m)

    stays : (q k : ℕ) → (k == m) ≡ false → joined u q k ≡ joined t q k
    stays q k d = v.counts q k ∙ none_lost k m (joined t q k) (holds t m q) d

-- Route_unregister_all never stops the process. After it no route has the member, the routes have
-- the other members they had, and routes and members are linked as they were before.
pub unregister_all-HasLeft :
    (t : Table) (member : ℕ)
    → IsLinked t
    → IsPointer member
    → HasLeft t member (unregister_all t member)
unfolding unregister_all
unregister_all-HasLeft t member l p =
    let (u, e, v) = leave_all-Leaves t member (listed (t.member_routes member)) l.bags p in
    subst
      (λ o.
        HasLeft t member
          (o >>= λ u. some (set_member_routes u member (clear (u.member_routes member)))))
      (sym e) (left-IsLinked t u member l v)
