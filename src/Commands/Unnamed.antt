-- ===== src/Commands/Unnamed.antt =====
-- A registration by a node without a name: `Hub_route_register_cb` of src/hub/commands.c and `Route_add`
-- of src/hub/routing.c.
use Prim.Native.Nat.{lt}
use utu.Prelude.{
  ℕ, ◌+◌, ◌≤◌, ◌≡◌, refl, inl, inr, Bool, true, false, Option, none, some, List, [], ◌∷◌, ltb,
  if◌then◌else◌, arith, Option-cases, get_or, Ordering,
}
use utu.Prelude.Calls.{stopped}
use utu.Stackish.Node.{Bytes, Value, Node, Nodes, node, nil, cons}
use utu.Stackish.Destroy.{siblings}
use utu.Heap.{search}
use utu.Heap.Search.{search_found}
use utu.Routing.{Table, Library, find_child, find_or_add, route_add}
use utu.Routing.Paths.{is_step, max_path, collect, extend_and_find, register, route_find}
use utu.Commands.{Services, Hub, route_register_cb}
use utu.Commands.Service.{call_back, extract_message, service_message}

-- What `bstrcmp` returns on an error is negative.
abbrev pub NullIsError : Library → Type 0
NullIsError lib = (a : Option Bytes) → lib.bstrcmp a none ≡ lt

find_child-none :
    (lib : Library) (t : Table) (p : ℕ) → NullIsError lib → find_child lib t p none ≡ none
unfolding find_child
find_child-none lib t p law = elim (Option-cases place) [
  | inl e ↦ rw e refl
  | inr (i, e) ↦
      let found = search_found probe children.last 0 children.last i e in
      absurd (ground (arith, law (some (t.routes (get_or children.members i 0)).name), found))
]
  where
    children : utu.Heap.Heap
    children = (t.routes p).children

    probe : ℕ → Ordering
    probe = λ k. lib.bstrcmp (some (t.routes (get_or children.members k 0)).name) none

    place : Option ℕ
    place = search children.last probe 0 children.last

route_add-none :
    (lib : Library) (t : Table) (p : ℕ) (names : List (Option Bytes))
    → NullIsError lib
    → route_add lib t p (none ∷ names) ≡ none
unfolding route_add find_or_add
route_add-none lib t p names law = rw (find_or_add, find_child-none lib t p law) refl

-- A path of few siblings fits.
collect-fits :
    (i : ℕ) (kids : Nodes)
    → i + siblings kids ≤ 30
    → (names : List (Option Bytes)) × (collect i kids ≡ some names)
unfolding collect
collect-fits i nil l = ([], refl)
collect-fits i (cons (node name v kids) rest) l =
    let (names, e) =
      collect-fits (if is_step v name then i + 1 else i) rest (next (is_step v name)) in
    let inside : ltb i max_path ≡ true = ground arith in
    (if is_step v name then name ∷ names else names, rw (collect, inside, e) refl)
  where
    next : (b : Bool) → (if b then i + 1 else i) + siblings rest ≤ 30
    next true = omega arith
    next false = omega arith

register-unnamed :
    (lib : Library) (t : Table) (routes member : ℕ) (v : Value) (kids : Nodes)
    → NullIsError lib
    → siblings kids ≤ 29
    → register lib t routes (node none v kids) member ≡ none
unfolding register extend_and_find
register-unnamed lib t routes member v kids law l =
    let (names, e) = collect-fits 1 kids (omega arith) in
    rw (extend_and_find, e, route_add-none lib t routes names law) refl

-- Where a route is found for a message that calls Hub_route_register_cb, and the node in the message
-- that is to be registered has no name and at most 29 children, Hub_service_message stops the hub.
pub service_message-unnamed :
    (lib : Services) (msg from target : ℕ) (payload : Node) (v : Value) (kids : Nodes) (hub : Hub)
    → NullIsError lib.routing
    → route_find lib.routing hub.table hub.routes payload ≡ some target
    → (hub.table.routes target).is_internal_callback ≡ true
    → (hub.table.routes target).callback ≡ 1
    → extract_message payload ≡ some (node none v kids)
    → siblings kids ≤ 29
    → service_message lib msg from payload hub ≡ stopped
unfolding service_message call_back route_register_cb
service_message-unnamed lib msg from target payload v kids hub law found internal callback inner
      few =
    rw
      (
        service_message,
        found,
        internal,
        inner,
        callback,
        call_back,
        route_register_cb,
        register-unnamed lib.routing hub.table hub.routes from v kids law few,
      )
      refl
