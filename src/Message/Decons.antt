-- ===== src/Message/Decons.antt =====
-- Messages from and to trees: `Message_cons` and `Message_decons` of src/protocol/message.c.
use utu.Prelude.{
  ltb, Bool, true, false, ◌>>=◌, ℕ, ◌≡◌, ◌∙◌, refl, Option, none, some, [], ◌∷◌, if◌then◌else◌,
  arith,
}
use utu.Stackish.Node.{
  Bytes, Value, Node, Nodes, node, nil, cons, number, string, blob, floating, group,
}
use utu.Stackish.Cons.{Arg, Built, built, null, node_cons}
use utu.Stackish.Cons
use utu.Stackish.Decons.{Out, Parts, parts, refused, crashed, node_decons, take_apart, same_bytes}
use utu.Stackish.Decons
use utu.Stackish.Destroy.{node_destroy, node_destroy_lem, depth, count, max_tree_deep}

-- The contents of a `Message`, whose `data` is `payload`; the tree of the header and that of the body stand beside it.
pub record Message : Type 0 where
  pub msgid : ℕ
  pub type : Bytes
  pub payload : Node

-- What `Message_decons` returns; `invalid` is null, and `stopped` is a failed assertion or a null
-- pointer that is followed.
pub data Result : Type 0 where
  received : Message → Result
  invalid stopped : Result

-- "header"
abbrev pub header_word : Bytes
header_word = b'h' ∷ b'e' ∷ b'a' ∷ b'd' ∷ b'e' ∷ b'r' ∷ []

-- `Message_cons_header`
unfoldable pub cons_header : ℕ → Built
unfolding node_cons
cons_header msgid =
    node_cons (b'[' ∷ b'n' ∷ b'w' ∷ []) (Arg.uint64 msgid ∷ Arg.c_string (some header_word) ∷ [])

-- The body that `Message_cons` returns.
unfoldable pub cons_body : Node → Bytes → Built
unfolding node_cons
cons_body payload type =
    node_cons (b'[' ∷ b'G' ∷ b'w' ∷ []) (Arg.tree (some payload) ∷ Arg.c_string (some type) ∷ [])

-- `Message_destroy` of the only reference, on failure: both trees are freed, or the process stops.
unfoldable pub discard : Node → Node → Result
unfolding node_destroy
discard hdr body = elim (node_destroy (cons hdr nil) >>= λ n. node_destroy (cons body nil)) [
  | none ↦ stopped
  | some n ↦ invalid
]

abbrev with_msgid : Result → Parts → (ℕ → Result) → Result
with_msgid bad crashed k = stopped
with_msgid bad (refused _) k = bad
with_msgid bad (parts (Out.uint64 n ∷ [])) k = k n
with_msgid bad (parts _) k = stopped

abbrev with_data : Result → Parts → (Node → Result) → Result
with_data bad crashed k = stopped
with_data bad (refused _) k = bad
with_data bad (parts (Out.tree n ∷ [])) k = k n
with_data bad (parts _) k = stopped

-- The two calls of `Node_decons`.
abbrev header_parts : Node → Parts
header_parts hdr = node_decons hdr (b'[' ∷ b'n' ∷ b'w' ∷ []) (header_word ∷ [])

abbrev body_parts : Node → Parts
body_parts body = node_decons body (b'[' ∷ b'G' ∷ b'.' ∷ []) []

-- `Message_decons`
unfoldable pub message_decons : Node → Node → Result
unfolding node_decons discard
message_decons hdr (node none v kids) = discard hdr (node none v kids)
message_decons hdr (node (some type) v kids) =
    let body = node (some type) v kids in
    with_msgid (discard hdr body) (header_parts hdr) (λ msgid.
      with_data (discard hdr body) (body_parts body)
        (λ payload. received (record { msgid = msgid; type = type; payload = payload })))

-- What a valid message is: a group "header" around a number, and a named group around the data.
abbrev pub header_number : Node → Option ℕ
header_number (node name v nil) = none
header_number (node none v (cons (node a w more) rest)) = none
header_number (node (some h) v (cons (node a (number n) more) rest)) =
    if same_bytes h header_word then some n else none
header_number (node (some h) v (cons (node a (string t) more) rest)) = none
header_number (node (some h) v (cons (node a (blob t) more) rest)) = none
header_number (node (some h) v (cons (node a (floating x) more) rest)) = none
header_number (node (some h) v (cons (node a group more) rest)) = none

abbrev pub first_kid : Nodes → Option Node
first_kid nil = none
first_kid (cons n rest) = some n

-- What becomes of other trees: they are freed where neither has 128 nodes or more on a path of
-- siblings and children.
abbrev pub rejected : Node → Node → Result
rejected hdr body =
    if ltb (depth (cons hdr nil)) max_tree_deep
    then if ltb (depth (cons body nil)) max_tree_deep then invalid else stopped
    else stopped

abbrev pub describe : Node → Node → Result
describe hdr (node none v kids) = rejected hdr (node none v kids)
describe hdr (node (some type) v kids) = elim (header_number hdr) [
  | none ↦ rejected hdr (node (some type) v kids)
  | some msgid ↦ elim (first_kid kids) [
    | none ↦ rejected hdr (node (some type) v kids)
    | some payload ↦ received (record { msgid = msgid; type = type; payload = payload })
  ]
]

discard-eq-rejected : (hdr body : Node) → discard hdr body ≡ rejected hdr body
unfolding discard
discard-eq-rejected hdr body =
    rw (discard, node_destroy_lem (cons hdr nil), node_destroy_lem (cons body nil))
      (both (ltb (depth (cons hdr nil)) max_tree_deep) (ltb (depth (cons body nil)) max_tree_deep)
        (count (cons hdr nil)) (count (cons body nil)))
  where
    both :
        (a b : Bool) (m n : ℕ)
        → elim ((if a then some m else none) >>= λ k. if b then some n else none) [
          | none ↦ stopped
          | some k ↦ invalid
        ]
          ≡ (if a then if b then invalid else stopped else stopped)
    both true true m n = refl
    both true false m n = refl
    both false b m n = refl

header_lem :
    (bad : Result) (hdr : Node) (k : ℕ → Result)
    → with_msgid bad (header_parts hdr) k ≡ (elim (header_number hdr) [ none ↦ bad | some n ↦ k n ])
unfolding node_decons take_apart Decons.step
header_lem bad (node name v nil) k = refl
header_lem bad (node none v (cons (node a (number n) more) nil)) k = refl
header_lem bad (node none v (cons (node a (number n) more) (cons (node b u many) rest))) k = refl
header_lem bad (node none v (cons (node a (string t) more) rest)) k = refl
header_lem bad (node none v (cons (node a (blob t) more) rest)) k = refl
header_lem bad (node none v (cons (node a (floating x) more) rest)) k = refl
header_lem bad (node none v (cons (node a group more) rest)) k = refl
header_lem bad (node (some h) v (cons (node a (number n) more) nil)) k = ground arith
header_lem bad (node (some h) v (cons (node a (number n) more) (cons (node b u many) rest))) k =
    ground arith
header_lem bad (node (some h) v (cons (node a (string t) more) rest)) k = refl
header_lem bad (node (some h) v (cons (node a (blob t) more) rest)) k = refl
header_lem bad (node (some h) v (cons (node a (floating x) more) rest)) k = refl
header_lem bad (node (some h) v (cons (node a group more) rest)) k = refl

data_lem :
    (bad : Result) (type : Bytes) (v : Value) (kids : Nodes) (k : Node → Result)
    → with_data bad (body_parts (node (some type) v kids)) k
      ≡ (elim (first_kid kids) [ none ↦ bad | some n ↦ k n ])
unfolding node_decons take_apart Decons.step
data_lem bad type v nil k = refl
data_lem bad type v (cons (node a w more) nil) k = refl
data_lem bad type v (cons (node a w more) (cons (node b u many) nil)) k = refl
data_lem bad type v (cons (node a w more) (cons (node b u many) (cons m rest))) k = refl

-- `Message_decons` accepts exactly the messages whose header is a node "header" with a number as its
-- first child and whose body has a name and a child; it returns the number, the name and the first
-- child. Any others it frees and returns null, unless one of the two trees has a path of 128 nodes or
-- more by siblings and children: then it stops the process.
pub message_decons-eq-describe : (hdr body : Node) → message_decons hdr body ≡ describe hdr body
unfolding message_decons
message_decons-eq-describe hdr (node none v kids) = discard-eq-rejected hdr (node none v kids)
message_decons-eq-describe hdr (node (some type) v kids) =
    rw (discard-eq-rejected hdr body)
      (header_lem (rejected hdr body) hdr on ∙ go_on (header_number hdr))
  where
    body : Node
    body = node (some type) v kids

    answer : ℕ → Node → Result
    answer = λ msgid payload. received (record { msgid = msgid; type = type; payload = payload })

    on : ℕ → Result
    on = λ msgid. with_data (rejected hdr body) (body_parts body) (answer msgid)

    go_on :
        (o : Option ℕ)
        → elim o [ none ↦ rejected hdr body | some n ↦ on n ] ≡ (elim o [
          | none ↦ rejected hdr body
          | some n ↦ elim (first_kid kids) [ none ↦ rejected hdr body | some d ↦ answer n d ]
        ])
    go_on none = refl
    go_on (some n) = data_lem (rejected hdr body) type v kids (answer n)

-- `Message_decons` of trees that a call of `Node_cons` may have failed to build.
abbrev pub decons_built : Built → Built → Result
decons_built (built (some hdr)) (built (some body)) = message_decons hdr body
decons_built _ _ = stopped

-- What `Message_cons` builds, `Message_decons` takes apart to the same number, type and data.
pub decons-cons :
    (msgid : ℕ) (payload : Node) (type : Bytes)
    → decons_built (cons_header msgid) (cons_body payload type)
      ≡ received (record { msgid = msgid; type = type; payload = payload })
unfolding cons_header cons_body message_decons node_cons Cons.build Cons.step Cons.take_arg
    node_decons take_apart Decons.step
decons-cons msgid (node name v kids) type = refl
