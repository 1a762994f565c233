-- ===== src/Tests/Trees.antt =====
-- Trees built and taken apart, and messages.
use utu.Prelude.{◌≡◌, refl, none, some, [], ◌∷◌}
use utu.Stackish.Node.{Node, node, nil, cons, number, string, group}
use utu.Stackish.Cons.{crashed, built, node_cons, build, step, take_arg}
use utu.Message.Decons.{
  received, cons_header, cons_body, message_decons, describe, decons_built, header_word,
  decons-cons, message_decons-eq-describe,
}

-- A group "header" around 7.
abbrev header_seven : Node
header_seven = node (some header_word) group (cons (node none (number 7) nil) nil)

-- A group "t" around "s".
abbrev body_t : Node
body_t = node (some (b't' ∷ [])) group (cons (node none (string (some (b's' ∷ []))) nil) nil)

header_built : cons_header 7 ≡ built (some header_seven)
unfolding cons_header node_cons build step take_arg
header_built = refl

-- A group that no character ends.
open_format : node_cons (b'[' ∷ []) [] ≡ crashed
unfolding node_cons build step
open_format = refl

decons-cons_example :
    decons_built (cons_header 7) (cons_body body_t (b'c' ∷ []))
    ≡ received (record { msgid = 7; type = b'c' ∷ []; payload = body_t })
decons-cons_example = decons-cons 7 body_t (b'c' ∷ [])

message_decons-eq-describe_example :
    message_decons header_seven body_t ≡ describe header_seven body_t
message_decons-eq-describe_example = message_decons-eq-describe header_seven body_t
