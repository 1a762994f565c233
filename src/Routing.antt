-- ===== src/Routing.antt =====
-- The tree of routes of src/hub/routing.c. Routes and members are pointers; a member counts here for
-- the heap of its routes.
pub mod Paths
pub mod Linked
pub mod Joined
pub mod Grown
pub mod Registered
pub mod Left
pub mod Unregistered
pub mod Named
pub mod Children
pub mod Kept
pub mod Found
pub mod Ways
pub mod Findable
use utu.Prelude.{
  ℕ, ◌+◌, Bool, true, false, Option, none, some, List, [], ◌∷◌, ◌==◌, ltb, get_or, take, ◌>>=◌,
  if◌then◌else◌, Ordering,
}
use utu.Stackish.Node.{Bytes}
use utu.Stackish.Print.{c_string}
use utu.Heap.{Heap, Sort, create, search, add, delete, clear}
use utu.Heap.Pointers.{create_pointers}

-- `Route`. A callback is a number.
pub record Route : Type 0 where
  pub name : Bytes
  pub is_internal_callback : Bool
  pub callback : ℕ
  pub members : Heap
  pub children : Heap

-- The memory: the routes, the routes of each member, and the address that `h_calloc` gives next.
pub record Table : Type 0 where
  pub routes : ℕ → Route
  pub member_routes : ℕ → Heap
  pub fresh : ℕ

-- The sort of the heap and `bstrcmp`, of which only the sign counts, and whose strings may be null.
pub record Library : Type 0 where
  pub by : Sort
  pub bstrcmp : Option Bytes → Option Bytes → Ordering

abbrev pub update : {A : Type 0} → (ℕ → A) → ℕ → A → ℕ → A
update f p a q = if q == p then a else f q

abbrev pub set_members : Table → ℕ → Heap → Table
set_members t r h = record t { routes = update t.routes r (record (t.routes r) { members = h }) }

abbrev pub set_children : Table → ℕ → Heap → Table
set_children t r h = record t { routes = update t.routes r (record (t.routes r) { children = h }) }

abbrev pub set_member_routes : Table → ℕ → Heap → Table
set_member_routes t m h = record t { member_routes = update t.member_routes m h }

-- `Route_children_compare`, which reads the names in memory.
abbrev pub children_compare : Library → Table → ℕ → ℕ → Ordering
children_compare lib t x y = lib.bstrcmp (some (t.routes x).name) (some (t.routes y).name)

-- A route from `h_calloc`, with its name.
abbrev pub new_route : Library → Table → Bytes → Route
new_route lib t name = record {
  name = name;
  is_internal_callback = false;
  callback = 0;
  members = create_pointers;
  children = create (children_compare lib t);
}

abbrev pub placed : Library → Table → Bytes → Table
placed lib t name = record t {
  routes = update t.routes t.fresh (new_route lib t name);
  fresh = t.fresh + 1;
}

-- `Route_alloc`, with and without a parent, and `Route_create_root`.
unfoldable pub create_root : Library → Table → Bytes → Table × ℕ
create_root lib t name = (placed lib t name, t.fresh)

unfoldable pub alloc : Library → Table → ℕ → Bytes → Option (Table × ℕ)
alloc lib t parent name =
    let u = placed lib t name in
    let children = record (u.routes parent).children { compare = children_compare lib u } in
    add lib.by t.fresh children >>= λ (h, count). some (set_children u parent h, t.fresh)

-- `Route_find_child`: `Heap_find` of a route that has the name, which may be null.
unfoldable pub find_child : Library → Table → ℕ → Option Bytes → Option ℕ
find_child lib t parent name =
    let children = (t.routes parent).children in
    search children.last
      (λ k. lib.bstrcmp (some (t.routes (get_or children.members k 0)).name) name) 0 children.last
    >>= λ i. some (get_or children.members i 0)

-- The child with a name, which is added where there is none; a null name stops at an assertion.
unfoldable pub find_or_add : Library → Table → ℕ → Option Bytes → Option (Table × ℕ)
unfolding find_child alloc
find_or_add lib t parent name = elim (find_child lib t parent name) [
  | some r ↦ some (t, r)
  | none ↦ name >>= λ bytes. alloc lib t parent (c_string bytes)
]

-- `Route_add` along the names of the path.
unfoldable pub route_add : Library → Table → ℕ → List (Option Bytes) → Option (Table × ℕ)
unfolding find_or_add
route_add lib t parent [] = some (t, parent)
route_add lib t parent (name ∷ names) =
    find_or_add lib t parent name >>= λ (u, r). route_add lib u r names

-- `Route_add_member`; what is returned says whether the route takes members.
unfoldable pub add_member : Library → Table → ℕ → ℕ → Option (Table × Bool)
add_member lib t route member =
    let joined = add lib.by member (t.routes route).members >>= λ (h, count).
    let u = set_members t route h in
    add lib.by route (u.member_routes member) >>= λ (g, more).
    some (set_member_routes u member g, true) in
    if (t.routes route).is_internal_callback then some (t, false) else joined

-- The deletions of `Route_unregister`.
unfoldable pub remove_member : Table → ℕ → ℕ → Option Table
remove_member t route member = delete member (t.routes route).members >>= λ (h, found).
    let u = set_members t route h in
    delete route (u.member_routes member) >>= λ (g, there). some (set_member_routes u member g)

-- The loop of `Route_unregister_all` over the routes of the member.
unfoldable pub leave_all : Table → ℕ → List ℕ → Option Table
leave_all t member [] = some t
leave_all t member (r ∷ rs) =
    delete member (t.routes r).members >>= λ (h, found). leave_all (set_members t r h) member rs

-- `Route_unregister_all`
unfoldable pub unregister_all : Table → ℕ → Option Table
unfolding leave_all
unregister_all t member =
    let held = t.member_routes member in
    leave_all t member (take held.last held.members) >>= λ u.
    some (set_member_routes u member (clear (u.member_routes member)))
