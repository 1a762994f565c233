-- ===== src/Routing/Paths.antt =====
-- Routes by the shape of a message: src/hub/routing.c.
use utu.Prelude.{
  ℕ, ◌+◌, Bool, true, false, not, Option, none, some, List, [], ◌∷◌, ◌==◌, ltb, ◌>>=◌,
  if◌then◌else◌,
}
use utu.Stackish.Node.{Bytes, Value, Node, Nodes, node, nil, cons, group}
use utu.Routing.{Table, Library, update, find_child, route_add, add_member, remove_member}

-- `ROUTE_MAX_PATH`
abbrev pub max_path : ℕ
max_path = 30

-- Whether a child is part of the path: a group with a name that is not an attribute's.
abbrev pub is_step : Value → Option Bytes → Bool
is_step group none = false
is_step group (some []) = true
is_step group (some (c ∷ name)) = not (c == b'@')
is_step _ name = false

-- The path array from its place `path_i` on, or nothing where it is too long.
unfoldable pub collect : ℕ → Nodes → Option (List (Option Bytes))
collect path_i nil = some []
collect path_i (cons (node name v kids) rest) =
    let step = is_step v name in
    let more = collect (if step then path_i + 1 else path_i) rest in
    if ltb path_i max_path
    then more >>= (λ names. some (if step then name ∷ names else names))
    else none

-- `Route_extend_and_find`: the table, and the route unless the path is too long.
unfoldable pub extend_and_find : Library → Table → ℕ → Node → Option (Table × Option ℕ)
unfolding collect
extend_and_find lib t routes (node name v kids) = elim (collect 1 kids) [
  | none ↦ some (t, none)
  | some names ↦ route_add lib t routes (name ∷ names) >>= λ (u, r). some (u, some r)
]

-- `Route_register`, with what it returns.
unfoldable pub register : Library → Table → ℕ → Node → ℕ → Option (Table × Bool)
unfolding extend_and_find
register lib t routes according_to member =
    extend_and_find lib t routes according_to >>= λ (u, point). elim point [
      | none ↦ some (u, false)
      | some r ↦ add_member lib u r member
    ]

-- `Route_register_callback`
unfoldable pub register_callback : Library → Table → ℕ → Node → ℕ → Option (Table × Bool)
unfolding extend_and_find
register_callback lib t routes according_to callback =
    extend_and_find lib t routes according_to >>= λ (u, point). elim point [
      | none ↦ some (u, false)
      | some r ↦ some (
        record u {
          routes =
              update u.routes r
                (record (u.routes r) { is_internal_callback = true; callback = callback });
        },
        true,
      )
    ]

-- The loop of `Route_find` over the siblings, every one of which counts.
unfoldable pub find_rest : Library → Table → ℕ → ℕ → Nodes → Option ℕ
find_rest lib t i r nil = some r
find_rest lib t i r (cons (node name v kids) rest) =
    let next = if is_step v name then find_child lib t r name else some r in
    if ltb i max_path then next >>= (λ c. find_rest lib t (i + 1) c rest) else none

-- `Route_find`
unfoldable pub route_find : Library → Table → ℕ → Node → Option ℕ
unfolding find_rest
route_find lib t parent (node name v kids) =
    find_child lib t parent name >>= λ r. find_rest lib t 0 r kids

-- `Route_unregister`, with what it returns.
unfoldable pub unregister : Library → Table → ℕ → Node → ℕ → Option (Table × Bool)
unfolding route_find
unregister lib t routes according_to member = elim (route_find lib t routes according_to) [
  | none ↦ some (t, false)
  | some r ↦ remove_member t r member >>= λ u. some (u, true)
]
