-- ===== src/Stackish/Sequence.antt =====
-- `Node_parse_seq` of src/stackish/node.c: one node from a buffer that may hold several.
use utu.Prelude.{
  ℕ, zero, suc, ◌+◌, ◌-◌, ◌%◌, ◌^◌, Bool, true, false, ◌&&◌, ◌||◌, not, Option, none, some, List,
  [], ◌∷◌, ◌==◌, ltb, leb, if◌then◌else◌, ◌>>◌, require, drop, get_or, length,
}
use utu.Stackish.Node.{Bytes, Node, node, cons, group, Floats}
use utu.Stackish.Tables.{parser_error, parser_first_final}
use utu.Stackish.Parser.{Frame, Parser, init, drive}

-- The root of the open groups: each group is the newest child of the one around it.
unfoldable pub close_groups : Node → List Frame → Node
close_groups n [] = n
close_groups n (f ∷ fs) = close_groups (node f.name group (cons n f.kids)) fs

-- `parser.root`
unfoldable pub root_of : List Frame → Option Node
unfolding close_groups
root_of [] = none
root_of (f ∷ fs) = some (close_groups (node f.name group f.kids) fs)

-- How a call ends: with a root or null and the new offset, at a failed assertion or a null pointer,
-- or not within the fuel.
pub data Outcome : Type 0 where
  parsed : Option Node → ℕ → Outcome
  crashed out_of_fuel : Outcome

-- `stackish_parser_execute` from an offset, which must not lie behind the end.
unfoldable pub execute : Floats → Bytes → ℕ → Parser → Option Parser
execute floats buffer off s = do
  require (leb off (length buffer))
  drive floats buffer off (drop off buffer) s

-- `while(bchar(buf, *from) == '\n') (*from)++;`, over the bytes from `from` on.
unfoldable pub skip_newlines : ℕ → Bytes → ℕ
skip_newlines from [] = from
skip_newlines from (c ∷ rest) = elim (c == 10) [
  | true ↦ skip_newlines (from + 1) rest
  | false ↦ from
]

abbrev pub has_error : Parser → Bool
has_error s = (s.cs == parser_error) || s.range_error

-- `on_fail`: the nodes are freed, and the offset moves on all the same.
abbrev pub failed_at : Parser → Outcome
failed_at s = parsed none (s.nread + 1)

unfoldable pub finish : Bytes → Parser → Outcome
unfolding skip_newlines root_of
finish buffer s =
    let from = s.nread + 1 in parsed (root_of s.open_groups) (skip_newlines from (drop from buffer))

-- `nread + more + 1` on `size_t`.
abbrev pub behind_blob : Parser → ℕ
behind_blob s = (s.nread + s.more + 1) % 2 ^ 64

-- The loop that skips the contents of blobs.
unfoldable pub blobs : ℕ → Floats → Bytes → Parser → Outcome
unfolding execute finish
blobs zero floats buffer s = out_of_fuel
blobs (suc fuel) floats buffer s =
    let next : Outcome = elim (execute floats buffer (behind_blob s) s) [
      | none ↦ crashed
      | some u ↦ let rest = blobs fuel floats buffer u in if has_error u then failed_at u else rest
    ] in
    let checked = if ltb (behind_blob s) (length buffer) then next else crashed in
    if not (s.more == 0) && not (s.cs == parser_first_final) && ltb s.nread (length buffer)
    then checked
    else finish buffer s

-- The last byte, as `bchar` gives it: 0 for an empty buffer.
abbrev pub last_byte : Bytes → ℕ
last_byte buffer = if length buffer == 0 then 0 else get_or buffer (length buffer - 1) 0

abbrev pub is_space_at_end : ℕ → Bool
is_space_at_end c = (c == b' ') || (c == 10) || (c == 9)

-- `Node_parse_seq` on the buffer from the offset `from` on.
unfoldable pub parse_seq : ℕ → Floats → Bytes → ℕ → Outcome
unfolding execute blobs init
parse_seq fuel floats buffer from =
    if is_space_at_end (last_byte buffer)
    then elim (execute floats buffer from init) [
      | none ↦ crashed
      | some s ↦ if has_error s then failed_at s else blobs fuel floats buffer s
    ]
    else parsed none (from + 1)

-- `Node_parse`
unfoldable pub parse : ℕ → Floats → Bytes → Outcome
unfolding parse_seq
parse fuel floats buffer = parse_seq fuel floats buffer 0
