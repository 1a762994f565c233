-- ===== src/Routing/Ways.antt =====
-- `Route_find` along the path of a message: src/hub/routing.c.
use utu.Prelude.{
  ℕ, ◌+◌, ◌≤◌, ◌≡◌, refl, sym, ap, subst, inl, inr, Bool, true, false, Option, none, some,
  some-injective, List, [], ◌∷◌, ltb, if◌then◌else◌, arith, Bool-cases,
}
use utu.Stackish.Node.{Bytes, Value, Nodes, node, nil, cons}
use utu.Stackish.Print.{c_string}
use utu.Stackish.Destroy.{siblings}
use utu.Heap.Find.{Fits}
use utu.Routing.{Table, Library, find_child}
use utu.Routing.Paths.{is_step, max_path, collect, find_rest, route_find}
use utu.Routing.Grown.{collect_inv, is_step-named}
use utu.Routing.Named.{IsOrder, by_name, IsChild-found}
use utu.Routing.Found.{ArePlain, IsWay, AreNamed}

-- No name of the nodes has a null character.
abbrev pub ArePlainNodes : Nodes → Type 0
ArePlainNodes nil = Unit {0}
ArePlainNodes (cons (node none v kids) rest) = ArePlainNodes rest
ArePlainNodes (cons (node (some name) v kids) rest) = (c_string name ≡ name) × ArePlainNodes rest

pub collect-ArePlain :
    (i : ℕ) (kids : Nodes) (names : List (Option Bytes))
    → ArePlainNodes kids
    → collect i kids ≡ some names
    → ArePlain names
unfolding collect
collect-ArePlain i nil names p e = subst ArePlain (some-injective [] names e) tt
collect-ArePlain i (cons (node none v kids) rest) names p e =
    let (l, ns, a, b) = collect_inv i none v kids rest names e in
    subst ArePlain (subst (λ c. (if c then none ∷ ns else ns) ≡ names) (nameless v) b)
      (collect-ArePlain (if is_step v none then i + 1 else i) rest ns p a)
  where
    nameless : (v : Value) → is_step v none ≡ false
    nameless v = elim (Bool-cases (is_step v none)) [
      | inl e ↦ let (w, n) = is_step-named v none e in absurd (ground (arith, n))
      | inr e ↦ e
    ]
collect-ArePlain i (cons (node (some name) v kids) rest) names (plain, p) e =
    let (l, ns, a, b) = collect_inv i (some name) v kids rest names e in
    let others = collect-ArePlain (if is_step v (some name) then i + 1 else i) rest ns p a in
    subst ArePlain b (either ns (is_step v (some name)) others)
  where
    either :
        (ns : List (Option Bytes)) (b : Bool)
        → ArePlain ns
        → ArePlain (if b then some name ∷ ns else ns)
    either ns true a = (plain, a)
    either ns false a = a

-- The siblings of a message lead along the names of its path.
find_rest-IsWay :
    (lib : Library) (t : Table) (i j r c : ℕ) (kids : Nodes) (names : List (Option Bytes))
    → IsOrder (by_name lib)
    → ((p : ℕ) → Fits (t.routes p).children)
    → AreNamed lib t
    → i + siblings kids ≤ 30
    → collect j kids ≡ some names
    → IsWay lib t r names c
    → find_rest lib t i r kids ≡ some c
unfolding find_rest collect
find_rest-IsWay lib t i j r c nil names o l n s e w =
    ap some (subst (λ ns. IsWay lib t r ns c) (sym (some-injective [] names e)) w)
find_rest-IsWay lib t i j r c (cons (node name v kids) rest) names o l n s e w =
    let (below, ns, a, b) = collect_inv j name v kids rest names e in
    let (q, f, way) = step ns (subst (λ x. IsWay lib t r x c) (sym b) w) in
    let more = find_rest-IsWay lib t (i + 1) _ q c rest ns o l n (omega arith) a way in
    let inside : ltb i max_path ≡ true = ground arith in rw (inside, f) more
  where
    next : Option ℕ
    next = if is_step v name then find_child lib t r name else some r

    along :
        (ns : List (Option Bytes)) (name : Option Bytes)
        → IsWay lib t r (name ∷ ns) c
        → (q : ℕ) × (find_child lib t r name ≡ some q) × IsWay lib t q ns c
    along ns none w = absurd w
    along ns (some w) (q, given, child, way) =
        (q, IsChild-found lib o t r w q (l r) (n r) child, way)

    step :
        (ns : List (Option Bytes))
        → IsWay lib t r (if is_step v name then name ∷ ns else ns) c
        → (q : ℕ) × (next ≡ some q) × IsWay lib t q ns c
    step ns w = elim (Bool-cases (is_step v name)) [
      | inl e ↦
          let (q, f, way) =
            along ns name (subst (λ b. IsWay lib t r (if b then name ∷ ns else ns) c) e w) in
          (q, rw e f, way)
      | inr e ↦ (r, rw e refl, subst (λ b. IsWay lib t r (if b then name ∷ ns else ns) c) e w)
    ]

pub way-found :
    (lib : Library) (t : Table) (routes r : ℕ) (name : Bytes) (v : Value) (kids : Nodes)
    (names : List (Option Bytes))
    → IsOrder (by_name lib)
    → ((p : ℕ) → Fits (t.routes p).children)
    → AreNamed lib t
    → siblings kids ≤ 30
    → collect 1 kids ≡ some names
    → IsWay lib t routes (some name ∷ names) r
    → route_find lib t routes (node (some name) v kids) ≡ some r
unfolding route_find
way-found lib t routes r name v kids names o l n s e (q, given, child, way) =
    let first = IsChild-found lib o t routes name q (l routes) (n routes) child in
    let more = find_rest-IsWay lib t 0 1 q r kids names o l n (omega arith) e way in rw first more
