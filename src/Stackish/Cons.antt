-- ===== src/Stackish/Cons.antt =====
-- `Node_cons` of src/stackish/node.c: a tree from a format and its arguments.
use utu.Prelude.{ℕ, Bool, ◌||◌, Option, none, some, List, [], ◌∷◌, ◌==◌, if◌then◌else◌}
use utu.Stackish.Node.{Bytes, Node, node, nil, cons, number, string, blob, floating, group}
use utu.Stackish.Parser.{Frame, name_first}

-- An argument after the format: a `uint64_t`, a `double`, a `bstring`, a C string, a node; the last
-- three may be null.
pub data Arg : Type 0 where
  uint64 double : ℕ → Arg
  bstring c_string : Option Bytes → Arg
  tree : Option Node → Arg

-- `root` once its group has ended, and the groups that are open, innermost first. A second tree that
-- begins after the root has ended is lost.
pub record Builder : Type 0 where
  pub root : Option Node
  pub open_groups : List Frame
  pub args : List Arg

-- How the call goes on: it returns null at a failed check, and `none` is a fault: an assertion, a
-- null pointer, or an argument of another type than the format asks for.
pub data Step : Type 0 where
  fault failed : Step
  go_on : Builder → Step

abbrev add_kid : Node → Builder → Builder
add_kid n s = elim s.open_groups [
  | [] ↦ s
  | f ∷ fs ↦ record s { open_groups = record f { kids = cons n f.kids } ∷ fs }
]

-- `UP` from a group that is open, with the name it has then.
abbrev up : Option Bytes → Builder → Step
up name s = elim s.open_groups [
  | [] ↦ fault
  | f ∷ fs ↦
      let n = node name group f.kids in
      elim fs [
        | [] ↦
            go_on (record s {
              root = elim s.root [ none ↦ some n | some r ↦ some r ];
              open_groups = [];
            })
        | g ∷ gs ↦ go_on (record s { open_groups = record g { kids = cons n g.kids } ∷ gs })
      ]
]

-- `'@'`: `Node_name` of the newest child, which must be there.
abbrev name_kid : Bytes → Builder → Step
name_kid name s = elim s.open_groups [
  | [] ↦ fault
  | f ∷ fs ↦ elim f.kids [
    | nil ↦ fault
    | cons k ks ↦
        go_on
          (record s { open_groups = record f { kids = name_first (some name) (cons k ks) } ∷ fs })
  ]
]

-- `'G'`: the node goes in front of the children of the group.
abbrev add_group : Node → Builder → Step
add_group n s = elim s.open_groups [
  | [] ↦ fault
  | f ∷ fs ↦ go_on (record s { open_groups = record f { kids = cons n f.kids } ∷ fs })
]

-- The cases that take an argument, `s` holding the arguments behind it.
unfoldable pub take_arg : ℕ → Arg → Builder → Step
take_arg c (uint64 n) s = if c == b'n' then go_on (add_kid (node none (number n) nil) s) else fault
take_arg c (double x) s =
    if c == b'f' then go_on (add_kid (node none (floating x) nil) s) else fault
take_arg c (bstring none) s = if (c == b'b') || (c == b's') then failed else fault
take_arg c (bstring (some t)) s =
    if c == b'b'
    then go_on (add_kid (node none (blob (some t)) nil) s)
    else if c == b's'
    then go_on (add_kid (node none (string (some t)) nil) s)
    else fault
take_arg c (c_string none) s = if (c == b'@') || (c == b'w') then failed else fault
take_arg c (c_string (some t)) s =
    if c == b'@' then name_kid t s else if c == b'w' then up (some t) s else fault
take_arg c (tree none) s = if c == b'G' then failed else fault
take_arg c (tree (some n)) s = if c == b'G' then add_group n s else fault

abbrev takes_arg : ℕ → Bool
takes_arg c =
    (c == b'n')
    || (c == b'f')
    || (c == b'b')
    || (c == b's')
    || (c == b'@')
    || (c == b'w')
    || (c == b'G')

-- The name that the innermost open group has at `']'`: none, since only `'w'` names a group, and
-- ends it.
unfoldable pub step : ℕ → Builder → Step
unfolding take_arg
step c s =
    if c == b'['
    then go_on (record s { open_groups = record { name = none; kids = nil } ∷ s.open_groups })
    else if c == b']'
    then up none s
    else if (c == b' ') || (c == 9) || (c == 10)
    then go_on s
    else if takes_arg c
    then elim s.args [ [] ↦ fault | a ∷ more ↦ take_arg c a (record s { args = more }) ]
    else failed

-- How `Node_cons` ends.
pub data Built : Type 0 where
  crashed null : Built
  built : Option Node → Built

-- The loop over the format, and the assertion that every group has ended.
unfoldable pub build : Bytes → Builder → Built
unfolding step
build [] s = elim s.open_groups [ [] ↦ built s.root | _ ∷ _ ↦ crashed ]
build (c ∷ format) s = elim (step c s) [
  | fault ↦ crashed
  | failed ↦ null
  | go_on u ↦ build format u
]

-- `Node_cons`
unfoldable pub node_cons : Bytes → List Arg → Built
unfolding build
node_cons format args = build format (record { root = none; open_groups = []; args = args })
