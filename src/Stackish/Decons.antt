-- ===== src/Stackish/Decons.antt =====
-- `Node_decons` of src/stackish/node.c: the parts of a tree by a format.
use utu.Prelude.{ℕ, Bool, true, false, ◌||◌, Option, none, some, List, [], ◌∷◌, ◌==◌, if◌then◌else◌}
use utu.Stackish.Node.{
  Bytes, Value, Node, Nodes, node, nil, cons, number, string, blob, floating, group,
}

-- What is written through the pointers after the format, in order.
pub data Out : Type 0 where
  uint64 double : ℕ → Out
  text binary : Option Bytes → Out
  tree : Node → Out

-- `cur_node`, with the siblings behind it, and the same of its parent, the parent's parent and so
-- on; no node at all is the null pointer. A child's parent is the node that it is listed under.
pub record Cursor : Type 0 where
  pub here : Nodes
  pub above : List Nodes
  pub words : List Bytes
  pub out : List Out

-- A failed check ends the call with 0; `fault` is a null pointer that is followed, or a word that
-- was not given. What an 'f' writes before it fails is left out.
pub data Step : Type 0 where
  fault failed : Step
  go_on : Cursor → Step

-- `NEXT`: the last node of a list stays.
abbrev next_node : Cursor → Cursor
next_node s = elim s.here [
  | nil ↦ s
  | cons n rest ↦ elim rest [ nil ↦ s | cons m more ↦ record s { here = cons m more } ]
]

-- `UP`; the flag says that there is a parent, without which the rest of the case is left out.
abbrev up : Cursor → Bool × Cursor
up s = elim s.above [
  | [] ↦ (false, record s { here = nil })
  | p ∷ ps ↦ (true, record s { here = p; above = ps })
]

abbrev write : Out → Cursor → Step
write o s = go_on (next_node (record s { out = o ∷ s.out }))

-- The cases that read the value of the current node.
abbrev read_value : ℕ → Value → Cursor → Step
read_value c (number n) s = if c == b'n' then write (uint64 n) s else failed
read_value c (floating x) s = if c == b'f' then write (double x) s else failed
read_value c (string t) s = if c == b's' then write (text t) s else failed
read_value c (blob t) s = if c == b'b' then write (binary t) s else failed
read_value c group s = failed

abbrev pub same_bytes : Bytes → Bytes → Bool
same_bytes [] [] = true
same_bytes [] (_ ∷ _) = false
same_bytes (_ ∷ _) [] = false
same_bytes (x ∷ xs) (y ∷ ys) = if x == y then same_bytes xs ys else false

-- The name of the current node against the next word.
abbrev check_name : Option Bytes → Cursor → (Cursor → Step) → Step
check_name name s then_do = elim s.words [
  | [] ↦ fault
  | w ∷ ws ↦ elim name [
    | none ↦ failed
    | some n ↦ if same_bytes n w then then_do (record s { words = ws }) else failed
  ]
]

-- `'w'`: the name of the parent.
abbrev word : Cursor → Step
word s =
    let (found, u) = up s in
    elim found [
      | false ↦ go_on u
      | true ↦ elim u.here [
        | nil ↦ fault
        | cons (node name _ _) _ ↦ check_name name u (λ v. go_on (next_node v))
      ]
    ]

abbrev reads_value : ℕ → Bool
reads_value c = (c == b'n') || (c == b'f') || (c == b's') || (c == b'b')

-- One character of the format, on a current node `n` that is not null.
unfoldable pub step : ℕ → Node → Nodes → Cursor → Step
step c (node name v kids) rest s =
    if c == b'['
    then go_on (record s { here = kids; above = cons (node name v kids) rest ∷ s.above })
    else if reads_value c
    then read_value c v s
    else if c == b']'
    then go_on (next_node (up s).1)
    else if c == b'@'
    then check_name name s go_on
    else if c == b'w'
    then word s
    else if c == b'G'
    then write (tree (node name v kids)) s
    else if c == b'.'
    then go_on (next_node s)
    else failed

-- How `Node_decons` ends: at a fault, with 0 or with 1; what it has written, in order.
pub data Parts : Type 0 where
  crashed : Parts
  refused parts : List Out → Parts

abbrev onto : List Out → List Out → List Out
onto [] out = out
onto (o ∷ os) out = onto os (o ∷ out)

-- The loop over the format; it breaks off where the current node is null.
unfoldable pub take_apart : Bytes → Cursor → Parts
unfolding step
take_apart [] s = parts (onto s.out [])
take_apart (c ∷ format) s = elim s.here [
  | nil ↦ refused (onto s.out [])
  | cons n rest ↦ elim (step c n rest s) [
    | fault ↦ crashed
    | failed ↦ refused (onto s.out [])
    | go_on u ↦ take_apart format u
  ]
]

-- `Node_decons` of a root without siblings or a parent. The words are those that the format asks
-- for, and the output pointers are not null.
unfoldable pub node_decons : Node → Bytes → List Bytes → Parts
unfolding take_apart
node_decons root format words =
    take_apart format (record { here = cons root nil; above = []; words = words; out = [] })
