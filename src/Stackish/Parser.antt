-- ===== src/Stackish/Parser.antt =====
-- The parser of src/stackish/stackish.c: the handlers, the actions and the driver.
use utu.Prelude.{
  ℕ, suc, ◌+◌, ◌-◌, ◌*◌, ◌^◌, Bool, true, false, ◌&&◌, not, Option, none, some, List, [], ◌∷◌, ◌==◌,
  ltb, leb, if◌then◌else◌, ◌>>=◌, take, drop,
}
use utu.Stackish.Node.{
  Bytes, Value, Node, Nodes, node, nil, cons, number, string, blob, floating, group, Floats,
}
use utu.Stackish.Tables.{Action, next, parser_start, parser_error}

-- A group that is still open: its name and its children so far.
pub record Frame : Type 0 where
  pub name : Option Bytes
  pub kids : Nodes

-- `stackish_parser`. The open groups stand innermost first: the first is `current`, the last is
-- `root`, and both are null while there is none. A group that the program has added to its parent
-- is added here when it ends, which comes to the same, since nothing is added to the parent in
-- between. `range_error` is `errno` after a number that is too large.
pub record Parser : Type 0 where
  pub cs : ℕ
  pub more : ℕ
  pub nread : ℕ
  pub mark : ℕ
  pub open_groups : List Frame
  pub range_error : Bool

-- `stackish_parser_init`
unfoldable pub init : Parser
init = record {
  cs = parser_start;
  more = 0;
  nread = 0;
  mark = 0;
  open_groups = [];
  range_error = false;
}

abbrev pub is_digit : ℕ → Bool
is_digit c = leb b'0' c && leb c b'9'

-- The number that decimal digits spell and how many there are, going on from a value and a count.
unfoldable pub digits_from : ℕ → ℕ → Bytes → ℕ × ℕ
digits_from value count [] = (value, count)
digits_from value count (c ∷ cs) =
    let rest = digits_from (value * 10 + (c - b'0')) (suc count) cs in
    if is_digit c then rest else (value, count)

-- `strtoul` at base ten on a text that begins with a digit: value, bytes read, range error.
unfoldable pub strtoul : Bytes → ℕ × ℕ × Bool
unfolding digits_from
strtoul text =
    let (value, count) = digits_from 0 0 text in
    if ltb value (2 ^ 64) then (value, count, false) else (2 ^ 64 - 1, count, true)

-- `blk2bstr`; a length below 0 gives the null pointer.
abbrev pub blk2bstr : Bytes → ℕ → ℕ → Option Bytes
blk2bstr buffer from to = if leb from to then some (take (to - from) (drop from buffer)) else none

-- What an action leaves behind, and whether it stops the driver. `none` is a fault.
abbrev pub Step : Type 0
Step = Option (Parser × Bool)

abbrev go_on : Parser → Step
go_on s = some (s, false)

abbrev stop : Parser → Step
stop s = some (s, true)

-- `Node_new_*` with the parent `current`.
abbrev add_kid : Node → Parser → Parser
add_kid n s = elim s.open_groups [
  | [] ↦ s
  | f ∷ fs ↦ record s { open_groups = record f { kids = cons n f.kids } ∷ fs }
]

-- `handle_push` with `Node_from_str`: nothing is added where no group is open, and where the value
-- cannot be read.
unfoldable pub handle_push : Option Value → Parser → Step
handle_push value s = elim s.open_groups [
  | [] ↦ stop s
  | f ∷ fs ↦ elim value [ none ↦ stop s | some v ↦ go_on (add_kid (node none v nil) s) ]
]

-- `Node_from_str` for a number and for a floating point number.
unfoldable pub number_from : Bytes → ℕ → Option Value
unfolding strtoul
number_from text length =
    let (value, count, over) = strtoul text in
    if count == length && not over then some (number value) else none

unfoldable pub float_from : Floats → Bytes → ℕ → Option Value
float_from floats text length =
    let (bits, count) = floats.strtod text in if count == length then some (floating bits) else none

-- `handle_word` with the name that it sets, and `handle_group` with no name. At the root it stops; elsewhere the parent is the
-- current group again.
unfoldable pub handle_word : Option Bytes → Parser → Step
handle_word name s = elim s.open_groups [
  | [] ↦ stop s
  | f ∷ fs ↦ elim fs [
    | [] ↦ stop (record s { open_groups = record f { name = name } ∷ [] })
    | g ∷ gs ↦
        go_on
          (record s { open_groups = record g { kids = cons (node name group f.kids) g.kids } ∷ gs })
  ]
]

abbrev pub name_first : Option Bytes → Nodes → Nodes
name_first name nil = nil
name_first name (cons (node _ v kids) rest) = cons (node name v kids) rest

-- `handle_attr`, which follows `parser->current` without a test; `Node_name` asserts that the name
-- is not null.
unfoldable pub handle_attr : Option Bytes → Parser → Step
handle_attr name s = elim s.open_groups [
  | [] ↦ none
  | f ∷ fs ↦ elim f.kids [
    | nil ↦ stop s
    | cons k ks ↦ elim name [
      | none ↦ none
      | some w ↦
          go_on
            (record s { open_groups = record f { kids = name_first (some w) (cons k ks) } ∷ fs })
    ]
  ]
]

-- `handle_start`
unfoldable pub handle_start : Parser → Parser
handle_start s = record s { open_groups = record { name = none; kids = nil } ∷ s.open_groups }

-- Action `more`: the length of a blob, which stops the driver so that the blob can be skipped.
unfoldable pub read_length : Bytes → ℕ → Parser → Step
unfolding strtoul
read_length buffer p s =
    let (value, count, over) = strtoul (drop s.mark buffer) in
    if s.mark + count == p
    then (let s' = record s { more = value; mark = p + 1; range_error = over } in
        if value == 0 then go_on s' else stop s')
    else none

-- The cases of the `switch`, at the byte number `p` of the buffer.
unfoldable pub perform : Floats → Bytes → ℕ → Action → Parser → Step
unfolding handle_push number_from float_from handle_word handle_attr handle_start read_length
perform floats buffer p Action.mark_here s = go_on (record s { mark = p })
perform floats buffer p Action.push_number s =
    handle_push (number_from (drop s.mark buffer) (p - s.mark)) s
perform floats buffer p Action.push_float s =
    handle_push (float_from floats (drop s.mark buffer) (p - s.mark)) s
perform floats buffer p Action.push_string s =
    handle_push (some (string (blk2bstr buffer s.mark p))) s
perform floats buffer p Action.open_group s = go_on (handle_start s)
perform floats buffer p Action.push_blob s =
    handle_push (some (blob (blk2bstr buffer s.mark p))) s >>= λ (u, left).
    some (if left then u else record u { more = 0 }, left)
perform floats buffer p Action.end_word s = elim s.open_groups [
  | [] ↦ stop s
  | _ ∷ _ ↦ elim (blk2bstr buffer s.mark p) [ none ↦ none | some w ↦ handle_word (some w) s ]
]
perform floats buffer p Action.end_group s = handle_word none s
perform floats buffer p Action.blob_length s = read_length buffer p s
perform floats buffer p Action.set_attr s = handle_attr (blk2bstr buffer s.mark p) s

-- `while ( _nacts-- > 0 )`
unfoldable pub run_actions : Floats → Bytes → ℕ → List Action → Parser → Step
run_actions floats buffer p [] s = go_on s
run_actions floats buffer p (a ∷ acts) s = perform floats buffer p a s >>= λ (u, left).
    let rest = run_actions floats buffer p acts u in if left then stop u else rest

-- One byte.
unfoldable pub feed : Floats → Bytes → ℕ → ℕ → Parser → Step
feed floats buffer p c s =
    let t = next s.cs c in run_actions floats buffer p t.1 (record s { cs = t.0 })

-- The driver from byte `p` on, over the bytes that are left; it ends with the byte that stopped it.
unfoldable pub drive : Floats → Bytes → ℕ → Bytes → Parser → Option Parser
drive floats buffer p [] s = some (record s { nread = p })
drive floats buffer p (c ∷ rest) s =
    let step = feed floats buffer p c s >>= λ (u, left).
    let on = drive floats buffer (p + 1) rest u in
    if left
    then some (record u { nread = p })
    else if u.cs == parser_error
    then some (record u { nread = p })
    else on in
    if s.cs == parser_error then some (record s { nread = p }) else step
