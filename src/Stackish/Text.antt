-- ===== src/Stackish/Text.antt =====
-- The trees whose text can be read back, and that text.
use utu.Prelude.{
  ℕ, ◌+◌, ◌^◌, ◌<◌, ◌≡◌, ◌⊎◌, inl, inr, refl, sym, ap, ◌∙◌, true, false, Option, none, some, [],
  ◌∷◌, ◌++◌, ◌==◌, append-nil, append_assoc, length, arith, ◌>>=◌, if◌then◌else◌,
}
use utu.Stackish.Node.{
  Bytes, Value, Node, Nodes, node, nil, cons, number, string, blob, floating, group, Floats,
}
use utu.Stackish.Parser.{is_digit}
use utu.Stackish.Classes.{is_alpha, is_word_byte, in_string}
use utu.Stackish.Print.{decimal, c_string, sep, name_text, start_text, value_text, catbstr}

abbrev pub IsByte : ℕ → Type 0
IsByte c = c < 256

-- Every byte of a text satisfies a predicate.
abbrev pub All : (ℕ → Type 0) → Bytes → Type 0
All P [] = Unit {0}
All P (c ∷ w) = P c × All P w

-- The bytes of a word or an attribute, and of a string.
abbrev pub IsWordByte : ℕ → Type 0
IsWordByte c = IsByte c × (is_word_byte c ≡ true)

abbrev pub IsStringByte : ℕ → Type 0
IsStringByte c = IsByte c × (in_string c ≡ true)

abbrev pub IsDigitByte : ℕ → Type 0
IsDigitByte c = IsByte c × (is_digit c ≡ true)

abbrev pub IsNumeral : Bytes → Type 0
IsNumeral [] = ⊥
IsNumeral (c ∷ w) = IsDigitByte c × All IsDigitByte w

abbrev pub IsWord : Bytes → Type 0
IsWord [] = ⊥
IsWord (c ∷ w) = IsByte c × (is_alpha c ≡ true) × All IsWordByte w

-- No name, or an attribute's.
abbrev pub IsAttr : Option Bytes → Type 0
IsAttr none = Unit {0}
IsAttr (some []) = ⊥
IsAttr (some (c ∷ w)) = (c ≡ b'@') × IsWord w

-- The text of a value of a leaf.
abbrev pub leaf_text : Value → Bytes
leaf_text (number n) = decimal 20 n ++ sep
leaf_text (string none) = []
leaf_text (string (some t)) = (b'"' ∷ []) ++ (t ++ ((b'"' ∷ []) ++ sep))
leaf_text (blob none) = []
leaf_text (blob (some t)) =
    (b'\'' ∷ []) ++ (decimal 20 (length t) ++ ((b':' ∷ []) ++ (t ++ ((b'\'' ∷ []) ++ sep))))
leaf_text (floating x) = []
leaf_text group = []

abbrev pub IsLeaf : Value → Type 0
IsLeaf (number n) = n < 2 ^ 64
IsLeaf (string none) = ⊥
IsLeaf (string (some t)) = All IsStringByte t
IsLeaf (blob none) = ⊥
IsLeaf (blob (some t)) = length t < 2 ^ 63
IsLeaf (floating x) = ⊥
IsLeaf group = ⊥

abbrev pub attr_text : Option Bytes → Bytes
attr_text none = []
attr_text (some w) = w ++ sep

-- The name of a group below the root.
abbrev pub IsEnd : Option Bytes → Type 0
IsEnd none = Unit {0}
IsEnd (some []) = ⊥
IsEnd (some (c ∷ w)) = ((c ≡ b'@') × IsWord w) ⊎ IsWord (c ∷ w)

abbrev pub bracket_text : Bytes
bracket_text = (b']' ∷ []) ++ sep

abbrev pub end_text : Option Bytes → Bytes
end_text none = bracket_text
end_text (some []) = sep
end_text (some (c ∷ w)) = if c == b'@' then bracket_text ++ ((c ∷ w) ++ sep) else (c ∷ w) ++ sep

-- The text behind the children.
abbrev pub tail_text : Value → Option Bytes → Bytes
tail_text (number n) name = leaf_text (number n) ++ attr_text name
tail_text (string t) name = leaf_text (string t) ++ attr_text name
tail_text (blob t) name = leaf_text (blob t) ++ attr_text name
tail_text (floating x) name = []
tail_text group name = end_text name

abbrev pub IsNil : Nodes → Type 0
IsNil nil = Unit {0}
IsNil (cons _ _) = ⊥

-- Trees without floating point numbers and null pointers, in which only groups have children, names
-- are words on groups and attributes elsewhere, and strings hold no quote and no zero.
abbrev pub IsReadable : Nodes → Type 0
IsReadable nil = Unit {0}
IsReadable (cons (node name (number n) kids) rest) =
    IsNil kids × IsLeaf (number n) × IsAttr name × IsReadable rest
IsReadable (cons (node name (string t) kids) rest) =
    IsNil kids × IsLeaf (string t) × IsAttr name × IsReadable rest
IsReadable (cons (node name (blob t) kids) rest) =
    IsNil kids × IsLeaf (blob t) × IsAttr name × IsReadable rest
IsReadable (cons (node name (floating x) kids) rest) = ⊥
IsReadable (cons (node name group kids) rest) = IsEnd name × IsReadable kids × IsReadable rest

-- A root that can be read back is a group that a word names.
abbrev pub IsReadableRoot : Node → Type 0
IsReadableRoot (node (some w) group kids) = IsWord w × IsReadable kids
IsReadableRoot (node _ _ _) = ⊥

abbrev pub text : Nodes → Bytes
text nil = []
text (cons (node name v kids) rest) = text rest ++ (start_text v ++ (text kids ++ tail_text v name))

-- How many blobs stop the parser.
abbrev pub blob_stops : Value → ℕ
blob_stops (blob (some (c ∷ t))) = 1
blob_stops _ = 0

abbrev pub blob_count : Nodes → ℕ
blob_count nil = 0
blob_count (cons (node name v kids) rest) = blob_count rest + (blob_count kids + blob_stops v)

word_byte-nonzero : (c : ℕ) → is_word_byte c ≡ true → (c == 0) ≡ false
word_byte-nonzero c h = ground arith

alpha-nonzero : (c : ℕ) → is_alpha c ≡ true → (c == 0) ≡ false
alpha-nonzero c h = ground arith

pub alpha-not_at : (c : ℕ) → is_alpha c ≡ true → (c == b'@') ≡ false
alpha-not_at c h = ground arith

in_string-nonzero : (c : ℕ) → in_string c ≡ true → (c == 0) ≡ false
in_string-nonzero c h = ground arith

c_string-word : (w : Bytes) → All IsWordByte w → c_string w ≡ w
c_string-word [] a = refl
c_string-word (c ∷ w) a = rw (word_byte-nonzero c a.0.1) (ap (λ l. c ∷ l) (c_string-word w a.1))

c_string-string : (t : Bytes) → All IsStringByte t → c_string t ≡ t
c_string-string [] a = refl
c_string-string (c ∷ t) a = rw (in_string-nonzero c a.0.1) (ap (λ l. c ∷ l) (c_string-string t a.1))

c_string-IsWord : (w : Bytes) → IsWord w → c_string w ≡ w
c_string-IsWord [] a = absurd a
c_string-IsWord (c ∷ w) a = rw (alpha-nonzero c a.1) (ap (λ l. c ∷ l) (c_string-word w a.2))

c_string-attr : (c : ℕ) (w : Bytes) → c ≡ b'@' → IsWord w → c_string (c ∷ w) ≡ c ∷ w
c_string-attr c w e a = rw e (ap (λ l. b'@' ∷ l) (c_string-IsWord w a))

name_text-IsAttr : (name : Option Bytes) → IsAttr name → name_text name ≡ attr_text name
name_text-IsAttr none a = refl
name_text-IsAttr (some []) a = absurd a
name_text-IsAttr (some (c ∷ w)) a = ap (λ l. l ++ sep) (c_string-attr c w a.0 a.1)

reassociate : (d e t f : Bytes) → ((d ++ e) ++ t) ++ f ≡ d ++ (e ++ (t ++ f))
reassociate d e t f = append_assoc (d ++ e) t f ∙ append_assoc d e (t ++ f)

inner : (a b c d e : Bytes) → (((a ++ b) ++ c) ++ d) ++ e ≡ a ++ (b ++ (c ++ (d ++ e)))
inner a b c d e =
    append_assoc ((a ++ b) ++ c) d e
    ∙ append_assoc (a ++ b) c (d ++ e)
    ∙ append_assoc a b (c ++ (d ++ e))

-- What the printer makes of the end of a node.
tail_lem :
    (floats : Floats) (inside : Bytes) (v : Value) (name : Option Bytes)
    → IsLeaf v
    → IsAttr name
    → (value_text floats v name >>= λ t. some ((inside ++ t) ++ name_text name))
      ≡ some (inside ++ tail_text v name)
unfolding value_text
tail_lem floats inside (number n) name l a =
    rw (name_text-IsAttr name a)
      (ap some (append_assoc inside (leaf_text (number n)) (attr_text name)))
tail_lem floats inside (string none) name l a = absurd l
tail_lem floats inside (string (some t)) name l a =
    rw (name_text-IsAttr name a, c_string-string t l)
      (ap some (append_assoc inside (leaf_text (string (some t))) (attr_text name)))
tail_lem floats inside (blob none) name l a = absurd l
tail_lem floats inside (blob (some t)) name l a =
    rw
      (
        name_text-IsAttr name a,
        reassociate (decimal 20 (length t)) (b':' ∷ []) t ((b'\'' ∷ []) ++ sep),
      )
      (ap some (append_assoc inside (leaf_text (blob (some t))) (attr_text name)))
tail_lem floats inside (floating x) name l a = absurd l
tail_lem floats inside group name l a = absurd l

end_lem :
    (floats : Floats) (inside : Bytes) (name : Option Bytes)
    → IsEnd name
    → (value_text floats group name >>= λ t. some ((inside ++ t) ++ name_text name))
      ≡ some (inside ++ end_text name)
unfolding value_text
end_lem floats inside none h = ap some (append-nil (inside ++ bracket_text))
end_lem floats inside (some []) h = absurd h
end_lem floats inside (some (c ∷ w)) (inl h) =
    rw (h.0, c_string-IsWord w h.1) (ap some (append_assoc inside bracket_text ((b'@' ∷ w) ++ sep)))
end_lem floats inside (some (c ∷ w)) (inr h) =
    rw (alpha-not_at c h.1, c_string-IsWord (c ∷ w) h)
      (ap some (ap (λ l. l ++ ((c ∷ w) ++ sep)) (append-nil inside)))

leaf_assoc : (a b c : Bytes) → some (((a ++ b) ++ []) ++ c) ≡ some (a ++ (b ++ c))
leaf_assoc a b c = ap some (ap (λ l. l ++ c) (append-nil (a ++ b)) ∙ append_assoc a b c)

-- The printer puts `text` behind what is there.
pub catbstr-text :
    (floats : Floats) (str : Bytes) (ns : Nodes)
    → IsReadable ns
    → catbstr floats str ns ≡ some (str ++ text ns)
unfolding catbstr
catbstr-text floats str nil h = ap some (sym (append-nil str))
catbstr-text floats str (cons (node name (number n) nil) rest) h =
    rw (catbstr-text floats str rest h.3) (
      tail_lem floats ((str ++ text rest) ++ []) (number n) name h.1 h.2
      ∙ leaf_assoc str (text rest) (tail_text (number n) name))
catbstr-text floats str (cons (node name (number n) (cons _ _)) rest) h = absurd h.0
catbstr-text floats str (cons (node name (string n) nil) rest) h =
    rw (catbstr-text floats str rest h.3) (
      tail_lem floats ((str ++ text rest) ++ []) (string n) name h.1 h.2
      ∙ leaf_assoc str (text rest) (tail_text (string n) name))
catbstr-text floats str (cons (node name (string n) (cons _ _)) rest) h = absurd h.0
catbstr-text floats str (cons (node name (blob n) nil) rest) h =
    rw (catbstr-text floats str rest h.3) (
      tail_lem floats ((str ++ text rest) ++ []) (blob n) name h.1 h.2
      ∙ leaf_assoc str (text rest) (tail_text (blob n) name))
catbstr-text floats str (cons (node name (blob n) (cons _ _)) rest) h = absurd h.0
catbstr-text floats str (cons (node name (floating n) kids) rest) h = absurd h
catbstr-text floats str (cons (node name group kids) rest) h =
    rw
      (
        catbstr-text floats str rest h.2,
        catbstr-text floats ((str ++ text rest) ++ start_text group) kids h.1,
      )
      (end_lem floats (((str ++ text rest) ++ start_text group) ++ text kids) name h.0
        ∙ ap some (inner str (text rest) (start_text group) (text kids) (end_text name)))
