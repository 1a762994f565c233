-- ===== src/Tests/Parsing.antt =====
-- Stackish texts, parsed.
use utu.Prelude.{codes, ◌≡◌, refl, none, some, [], ◌∷◌, arith}
use utu.Stackish.Node.{Value, Node, node, nil, cons, number, string, blob, group, Floats}
use utu.Stackish.Tables.{next}
use utu.Stackish.Parser.{feed, drive, run_actions, perform}
use utu.Stackish.Attribute.{parse-attr}
use utu.Stackish.Sequence.{parsed, crashed, parse}

-- A library that reads no floating point numbers.
abbrev pub no_floats : Floats
no_floats = record { strtod = λ text. (0, 0); print_float = λ bits. [] }

abbrev pub leaf : Value → Node
leaf v = node none v nil

parse_header :
    parse 1 no_floats (codes "[ 12 \"ab\" header ")
    ≡ parsed
        (some (
          node
            (some (codes "header"))
            group
            (cons (leaf (string (some (codes "ab")))) (cons (leaf (number 12)) nil))))
        17
unfolding parse drive feed run_actions perform next
parse_header = refl

parse_blobs :
    parse 3 no_floats (codes "[ '2:x]' [ '0:' inner test ")
    ≡ parsed
        (some (
          node (some (codes "test")) group (
            cons
              (node (some (codes "inner")) group (cons (leaf (blob (some []))) nil))
              (cons (leaf (blob (some (codes "x]")))) nil))))
        27
unfolding parse drive feed run_actions perform next
parse_blobs = refl

parse-attr_example : parse 1 no_floats (codes "@ab ") ≡ crashed
parse-attr_example =
    parse-attr 1 no_floats b'a' (b'b' ∷ []) (omega arith) refl (((omega arith), refl), tt)
