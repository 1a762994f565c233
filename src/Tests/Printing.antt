-- ===== src/Tests/Printing.antt =====
-- Trees printed and freed.
use utu.Prelude.{
  codes, ℕ, zero, suc, ◌≡◌, refl, none, some, [], ◌∷◌, ◌++◌, length, arith, ltb, if◌then◌else◌,
}
use utu.Stackish.Node.{Node, Nodes, node, nil, cons, number, string, blob, group}
use utu.Stackish.Parser.{number_from}
use utu.Stackish.Print.{decimal, value_text, catbstr, bstr}
use utu.Stackish.Numbers.{number_from-decimal}
use utu.Stackish.Destroy.{node_destroy, depth, count, node_destroy_lem}
use utu.Tests.Parsing.{no_floats, leaf}

-- The tree of "[ 12 "ab" header ".
abbrev small : Node
small =
    node (some (codes "header")) group
      (cons (leaf (string (some (codes "ab")))) (cons (leaf (number 12)) nil))

printed : bstr no_floats small ≡ some (codes "[ 12 \"ab\" header " ++ (10 ∷ []))
unfolding bstr catbstr value_text decimal
printed = refl

abbrev blob_node : Node
blob_node = leaf (blob (some (codes "x]")))

printed_blob :
    bstr no_floats (node (some (codes "@a")) group (cons blob_node nil))
    ≡ some (codes "[ '2:x]' ] @a " ++ (10 ∷ []))
unfolding bstr catbstr value_text decimal
printed_blob = refl

abbrev many : ℕ → Nodes
many zero = nil
many (suc n) = cons (leaf group) (many n)

number_from-decimal_example :
    number_from (decimal 20 1905 ++ (b' ' ∷ [])) (length (decimal 20 1905)) ≡ some (number 1905)
number_from-decimal_example = number_from-decimal 1905 [] (omega arith)

node_destroy_lem_example :
    node_destroy (many 3) ≡ (if ltb (depth (many 3)) 128 then some (count (many 3)) else none)
node_destroy_lem_example = node_destroy_lem (many 3)
