-- ===== src/Routing/Linked.antt =====
-- What holds of the routes and the members of src/hub/routing.c.
use utu.Prelude.{
  ℕ, ◌≤◌, ◌<◌, ◌≡◌, refl, sym, ap, ap₂, ◌∙◌, subst, inl, inr, true, false, ◌==◌, if◌then◌else◌,
  arith, Bool-cases,
}
use utu.Heap.{Heap, create}
use utu.Heap.Find.{Fits}
use utu.Heap.Pointers.{create_pointers}
use utu.Heap.Bags.{times, Every}
use utu.Heap.Placed.{listed}
use utu.Heap.Keeps.{IsBag, one_if}
use utu.Routing.{Route, Table, update, set_members, set_member_routes}

-- The addresses that were given, other than that of a route to come.
abbrev pub IsGiven : ℕ → ℕ → Type 0
IsGiven fresh r = (0 < r) × (r < fresh)

-- A route has a member as often as the member has the route; children are routes that were made.
pub record IsLinked (t : Table) : Type 0 where
  pub bags : (r : ℕ) → IsBag (t.routes r).members
  pub held : (m : ℕ) → IsBag (t.member_routes m)
  pub agree :
      (r m : ℕ) → times m (listed (t.routes r).members) ≡ times r (listed (t.member_routes m))
  pub kids :
      (r : ℕ) → Fits (t.routes r).children × Every (IsGiven t.fresh) (listed (t.routes r).children)
  pub unused : (r : ℕ) → t.fresh ≤ r → (t.routes r).members ≡ create_pointers
  pub some_given : 0 < t.fresh

-- What holds of a value and of the others holds after an update.
pub update_at :
    {A : Type 0} (P : A → Type 0) (f : ℕ → A) (p q : ℕ) (a : A)
    → (q ≡ p → P a)
    → ((q == p) ≡ false → P (f q))
    → P (update f p a q)
update_at P f p q a h k = elim (Bool-cases (q == p)) [
  | inl e ↦ subst (λ b. P (if b then a else f q)) (sym e) (h (same e))
  | inr e ↦ subst (λ b. P (if b then a else f q)) (sym e) (k e)
]
  where
    same : (q == p) ≡ true → q ≡ p
    same e = ground arith

pub create_pointers-IsBag : IsBag create_pointers
unfolding create_pointers create
create_pointers-IsBag = ((omega arith, refl, omega arith), refl, tt, tt)

-- How often a member stands in a route, and a route in a member's.
abbrev pub joined : Table → ℕ → ℕ → ℕ
joined t r m = times m (listed (t.routes r).members)

abbrev pub holds : Table → ℕ → ℕ → ℕ
holds t m r = times r (listed (t.member_routes m))

-- Both heaps of a route and a member change by the same number.
abbrev pub relinked : Table → ℕ → ℕ → Heap → Heap → Table
relinked t r m h g = set_member_routes (set_members t r h) m g

relinked-bags :
    (t : Table) (r m : ℕ) (h g : Heap)
    → IsLinked t
    → IsBag h
    → (q : ℕ) → IsBag ((relinked t r m h g).routes q).members
relinked-bags t r m h g l b q =
    update_at (λ (x : Route). IsBag x.members) t.routes r q (record (t.routes r) { members = h })
      (λ e. b) (λ e. l.bags q)

relinked-held :
    (t : Table) (r m : ℕ) (h g : Heap)
    → IsLinked t
    → IsBag g
    → (k : ℕ) → IsBag ((relinked t r m h g).member_routes k)
relinked-held t r m h g l b k = update_at IsBag t.member_routes m k g (λ e. b) (λ e. l.held k)

relinked-kids :
    (t : Table) (r m : ℕ) (h g : Heap)
    → IsLinked t
    → (q : ℕ)
    → Fits ((relinked t r m h g).routes q).children
      × Every (IsGiven t.fresh) (listed ((relinked t r m h g).routes q).children)
relinked-kids t r m h g l q =
    update_at (λ (x : Route). Fits x.children × Every (IsGiven t.fresh) (listed x.children))
      t.routes r q (record (t.routes r) { members = h }) (λ e. l.kids r) (λ e. l.kids q)

relinked-unused :
    (t : Table) (r m : ℕ) (h g : Heap)
    → IsLinked t
    → r < t.fresh
    → (q : ℕ) → t.fresh ≤ q
    → ((relinked t r m h g).routes q).members ≡ create_pointers
relinked-unused t r m h g l f q o =
    update_at (λ (x : Route). x.members ≡ create_pointers) t.routes r q
      (record (t.routes r) { members = h }) (λ e. absurd (omega arith)) (λ e. l.unused q o)

-- The pointers that count for both, as a function of what there was.
pub relinked-IsLinked :
    (t : Table) (r m : ℕ) (h g : Heap) (change : ℕ → ℕ → ℕ)
    → IsLinked t
    → r < t.fresh
    → IsBag h
    → IsBag g
    → ((k : ℕ) → times k (listed h) ≡ change (joined t r k) (one_if k m))
    → ((q : ℕ) → times q (listed g) ≡ change (holds t m q) (one_if q r))
    → ((n : ℕ) → change n 0 ≡ n)
    → IsLinked (relinked t r m h g)
relinked-IsLinked t r m h g change l f bh bg ch cg same = record {
  bags = relinked-bags t r m h g l bh;
  held = relinked-held t r m h g l bg;
  kids = relinked-kids t r m h g l;
  unused = relinked-unused t r m h g l f;
  some_given = l.some_given;
  agree = λ q k.
      update_at
        (λ (x : Route).
          times k (listed x.members) ≡ times q (listed (update t.member_routes m g k)))
        t.routes r q (record (t.routes r) { members = h })
        (λ e.
          update_at (λ x. times k (listed h) ≡ times q (listed x)) t.member_routes m k g
            (λ d.
              ch k
              ∙ ap₂ change (l.agree r k ∙ route k (sym e) ∙ member q d)
                  (ones k m d ∙ sym (ones q r e))
              ∙ sym (cg q))
            (λ d.
              ch k
              ∙ ap (change (joined t r k)) (none_if k m d)
              ∙ same (joined t r k)
              ∙ l.agree r k
              ∙ route k (sym e)))
        (λ e.
          update_at (λ x. joined t q k ≡ times q (listed x)) t.member_routes m k g
            (λ d.
              l.agree q k
              ∙ member q d
              ∙ sym (cg q ∙ ap (change (holds t m q)) (none_if q r e) ∙ same (holds t m q)))
            (λ d. l.agree q k));
}
  where
    route : {a b : ℕ} (k : ℕ) → a ≡ b → holds t k a ≡ holds t k b
    route k e = ap (holds t k) e

    member : {a b : ℕ} (q : ℕ) → a ≡ b → holds t a q ≡ holds t b q
    member q e = ap (λ a. holds t a q) e

    ones : (a b : ℕ) → a ≡ b → one_if a b ≡ 1
    ones a b e = ground arith

    none_if : (a b : ℕ) → (a == b) ≡ false → one_if a b ≡ 0
    none_if a b e = ground arith
