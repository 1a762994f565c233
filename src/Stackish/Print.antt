-- ===== src/Stackish/Print.antt =====
-- The printer of src/stackish/node.c: `Node_catbstr` and `Node_bstr`.
use utu.Prelude.{
  ℕ, zero, suc, ◌+◌, ◌/◌, ◌%◌, Option, none, some, [], ◌∷◌, ◌++◌, ◌==◌, ltb, if◌then◌else◌, ◌>>=◌,
  length,
}
use utu.Stackish.Node.{
  Bytes, Value, Node, Nodes, node, nil, cons, number, string, blob, floating, group, Floats,
}

-- `%llu` and `%zu`, of numbers below 10 ^ 20 with 20 rounds.
unfoldable pub decimal : ℕ → ℕ → Bytes
decimal zero n = []
decimal (suc digits) n =
    let high = decimal digits (n / 10) in
    let low = (b'0' + n % 10) ∷ [] in if ltb n 10 then low else high ++ low

-- What `%s` prints of a `bstring`: the bytes up to the first zero.
abbrev pub c_string : Bytes → Bytes
c_string [] = []
c_string (c ∷ cs) = if c == 0 then [] else c ∷ c_string cs

abbrev pub sep : Bytes
sep = b' ' ∷ []

-- The text of a value between the children of the node and its name. A string that is null is a
-- null pointer that is followed.
unfoldable pub value_text : Floats → Value → Option Bytes → Option Bytes
value_text floats (number n) name = some (decimal 20 n ++ sep)
value_text floats (string none) name = none
value_text floats (string (some t)) name =
    some (((b'"' ∷ []) ++ c_string t) ++ ((b'"' ∷ []) ++ sep))
value_text floats (blob none) name =
    some (((b'\'' ∷ []) ++ (decimal 20 0 ++ (b':' ∷ []))) ++ ((b'\'' ∷ []) ++ sep))
value_text floats (blob (some t)) name =
    some ((((b'\'' ∷ []) ++ (decimal 20 (length t) ++ (b':' ∷ []))) ++ t) ++ ((b'\'' ∷ []) ++ sep))
value_text floats (floating x) name = some (floats.print_float x ++ sep)
value_text floats group none = some ((b']' ∷ []) ++ sep)
value_text floats group (some []) = some []
value_text floats group (some (c ∷ cs)) = some (if c == b'@' then (b']' ∷ []) ++ sep else [])

abbrev pub name_text : Option Bytes → Bytes
name_text none = []
name_text (some t) = c_string t ++ sep

abbrev pub start_text : Value → Bytes
start_text group = (b'[' ∷ []) ++ sep
start_text (number _) = []
start_text (string _) = []
start_text (blob _) = []
start_text (floating _) = []

-- `Node_catbstr` with the siblings followed, onto a text: the siblings behind a node come first.
unfoldable pub catbstr : Floats → Bytes → Nodes → Option Bytes
unfolding value_text
catbstr floats str nil = some str
catbstr floats str (cons (node name v kids) rest) = do
  before ← catbstr floats str rest
  inside ← catbstr floats (before ++ start_text v) kids
  text ← value_text floats v name
  some ((inside ++ text) ++ name_text name)

-- `Node_bstr` of a root without siblings.
unfoldable pub bstr : Floats → Node → Option Bytes
unfolding catbstr
bstr floats root = catbstr floats [] (cons root nil) >>= λ text. some (text ++ (10 ∷ []))
