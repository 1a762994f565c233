-- ===== src/Client.antt =====
-- The client that stands between a hub and a listener: frames as src/client/io.c reads and writes
-- them. Bytes arrive in order, and what is written leaves whole.
pub mod Proxy
pub mod Setup
pub mod Sides
pub mod Steps
pub mod Relay
pub mod Delivery
use utu.Prelude.{
  ℕ, ◌+◌, ◌*◌, ◌/◌, ◌%◌, ◌^◌, Option, none, some, List, [], ◌∷◌, ◌++◌, ◌==◌, length, take, drop,
  if◌then◌else◌,
}
use utu.Prelude.Calls.{Call, ok, stopped, then_call, or_stop}
use utu.Stackish.Node.{Bytes, Node, nil, cons, Floats}
use utu.Stackish.Print.{catbstr}
use utu.Stackish.Sequence.{Outcome, parsed, crashed, out_of_fuel, parse_seq}

-- `readn`: as many bytes, or those before the end; reading none is a failed assertion.
unfoldable pub readn : ℕ → Bytes → Call (Bytes × Bytes)
readn count incoming = if count == 0 then stopped else ok (take count incoming, drop count incoming)

-- `readframe`: the data of a frame, unless the bytes end before it does.
unfoldable pub readframe : Bytes → Call (Option Bytes × Bytes)
unfolding readn
readframe incoming = then_call (readn 2 incoming) (λ (head, rest). elim head [
  | high ∷ low ∷ [] ↦
      let reclen = high * 256 + low in
      then_call (readn reclen rest) (λ (bytes, after).
        ok (if length bytes == reclen then (some bytes, after) else (none, after)))
  | _ ↦ ok (none, rest)
])

-- What `readnodes` gives: the header and the body, each of which may be null, and the bytes left.
pub record NodesRead : Type 0 where
  pub header : Option Node
  pub body : Option Node
  pub rest : Bytes

abbrev pub unread : Bytes → NodesRead
unread rest = record { header = none; body = none; rest = rest }

-- The two trees of a frame.
unfoldable pub parse_nodes : ℕ → Floats → Bytes → Bytes → Call NodesRead
parse_nodes fuel floats bytes rest = elim (parse_seq fuel floats bytes 0) [
  | crashed ↦ stopped
  | out_of_fuel ↦ stopped
  | parsed none from ↦ ok (unread rest)
  | parsed (some header) from ↦ elim (parse_seq fuel floats bytes from) [
    | crashed ↦ stopped
    | out_of_fuel ↦ stopped
    | parsed body q ↦ ok (record { header = some header; body = body; rest = rest })
  ]
]

-- `readnodes`
unfoldable pub readnodes : ℕ → Floats → Bytes → Call NodesRead
unfolding readframe parse_nodes
readnodes fuel floats incoming = then_call (readframe incoming) (λ (frame, rest). elim frame [
  | none ↦ ok (unread rest)
  | some bytes ↦ parse_nodes fuel floats bytes rest
])

-- What `Node_catbstr` adds to the header of a body that may be null: no newline ends it.
unfoldable pub body_text : Floats → Option Node → Call Bytes
body_text floats none = ok []
body_text floats (some n) = or_stop (catbstr floats [] (cons n nil))

-- `write_header_node`: the bytes that leave. The length is a `u_int16_t`.
unfoldable pub write_header_node : Floats → Bytes → Option Node → Call Bytes
unfolding body_text
write_header_node floats header body = then_call (body_text floats body) (λ text.
    let reclen = (length header + length text) % 2 ^ 16 in
    ok ((reclen / 256) ∷ (reclen % 256) ∷ (header ++ text)))

-- `writenodes`
unfoldable pub writenodes : Floats → Node → Option Node → Call Bytes
unfolding write_header_node
writenodes floats header body =
    then_call (or_stop (catbstr floats [] (cons header nil)))
      (λ text. write_header_node floats text body)
