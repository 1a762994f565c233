-- ===== src/Stackish/RoundTrip.antt =====
-- A printed tree is read back.
use utu.Prelude.{
  ℕ, suc, ◌+◌, ◌-◌, ◌^◌, ◌≡◌, ◌<◌, refl, sym, subst, ◌>>=◌, ap, ◌∙◌, inr, Bool, true, not, Option,
  none, some, some-injective, [], ◌∷◌, ◌++◌, length, length-append, drop, drop_along, drop-append,
  append-nil, arith, append_assoc, ◌==◌, leb,
}
use utu.Stackish.Node.{
  Bytes, Floats, Node, Nodes, node, nil, cons, number, string, blob, floating, group,
}
use utu.Stackish.Parser.{init}
use utu.Stackish.Print.{sep, catbstr, bstr}
use utu.Stackish.Text.{
  IsReadableRoot, IsReadable, IsWord, IsEnd, text, end_text, blob_count, alpha-not_at, catbstr-text,
}
use utu.Stackish.Bytes.{last_byte-append}
use utu.Stackish.Tokens.{between, goes, drive-open, drive-root}
use utu.Stackish.Blobs.{after, after_lem, resume, fits_in}
use utu.Stackish.Reading.{Reads-nodes, onto-nil}
use utu.Stackish.Sequence.{
  parsed, last_byte, is_space_at_end, skip_newlines, root_of, finish, blobs, execute, parse_seq,
  parse,
}

-- Whether another newline follows.
abbrev pub no_newline : Bytes → Bool
no_newline [] = true
no_newline (c ∷ rest) = not (c == 10)

-- The text of a root up to its name.
abbrev root_text : Bytes → Nodes → Bytes → Bytes
root_text w kids rest = b'[' ∷ b' ' ∷ (text kids ++ (w ++ (b' ' ∷ 10 ∷ rest)))

skip_newlines-one :
    (p : ℕ) (rest : Bytes) → no_newline rest ≡ true → skip_newlines p (10 ∷ rest) ≡ p + 1
unfolding skip_newlines
skip_newlines-one p [] h = refl
skip_newlines-one p (c ∷ rest) h = ground arith

module _ (floats : Floats) (buffer : Bytes) (small : length buffer < 2 ^ 64) where
  finish_lem :
      (fuel q m : ℕ) (w : Bytes) (kids : Nodes) (rest : Bytes)
      → drop (q + 1) buffer ≡ 10 ∷ rest
      → no_newline rest ≡ true
      → blobs (suc fuel) floats buffer (between q m (record { name = some w; kids = kids } ∷ []))
        ≡ parsed (some (node (some w) group kids)) (q + 2)
  unfolding blobs finish root_of
  finish_lem fuel q m w kids rest e h =
      rw (e, skip_newlines-one (q + 1) rest h)
        (ap (λ x. parsed (some (node (some w) group kids)) x) (omega arith))

  -- The text of a root from a place in a buffer on.
  resume_root :
      (fuel p : ℕ) (w : Bytes) (kids : Nodes) (rest : Bytes)
      → IsWord w
      → IsReadable kids
      → drop p buffer ≡ root_text w kids rest
      → no_newline rest ≡ true
      → resume floats buffer (blob_count kids + suc fuel) p (root_text w kids rest) (between 0 0 [])
        ≡ parsed (some (node (some w) group kids)) (p + (2 + length (text kids) + length w + 2))
  resume_root fuel p w kids rest a h e n =
      ap (after floats buffer (blob_count kids + suc fuel)) (drive-open floats buffer _ p 0 0 [])
      ∙ Reads-nodes floats buffer small kids h (suc fuel) (p + 2) 0 0
          (record { name = none; kids = nil }) [] tail _ inside
          (λ k m.
            ap
              (λ ks.
                resume floats buffer (suc fuel) q tail
                  (between k m (record { name = none; kids = ks } ∷ [])))
              (onto-nil kids)
            ∙ ap (after floats buffer (suc fuel)) (
                drive-root floats buffer w (10 ∷ rest) q k m (record { name = none; kids = kids }) a
                  at_word)
            ∙ finish_lem fuel (q + length w) q w kids rest at_end n
            ∙ ap (λ x. parsed (some (node (some w) group kids)) x) (omega arith))
    where
      q : ℕ
      q = p + 2 + length (text kids)

      tail : Bytes
      tail = w ++ (b' ' ∷ 10 ∷ rest)

      inside : drop (p + 2) buffer ≡ text kids ++ tail
      inside = drop_along p (b'[' ∷ b' ' ∷ []) (text kids ++ tail) buffer e

      at_word : drop q buffer ≡ tail
      at_word = drop_along (p + 2) (text kids) tail buffer inside

      at_end : drop (q + length w + 1) buffer ≡ 10 ∷ rest
      at_end =
          drop_along (q + length w) (b' ' ∷ []) (10 ∷ rest) buffer
            (drop_along q w (b' ' ∷ 10 ∷ rest) buffer at_word)

root_end : (w : Bytes) → IsWord w → end_text (some w) ≡ w ++ sep
root_end [] a = absurd a
root_end (c ∷ w) a = rw (alpha-not_at c a.1) refl

word-IsEnd : (w : Bytes) → IsWord w → IsEnd (some w)
word-IsEnd [] a = absurd a
word-IsEnd (c ∷ w) a = inr a

-- The printed root, with what stands behind it.
printed_root :
    (floats : Floats) (w : Bytes) (kids : Nodes) (t rest : Bytes)
    → IsWord w
    → IsReadable kids
    → bstr floats (node (some w) group kids) ≡ some t
    → t ++ rest ≡ root_text w kids rest
unfolding bstr
printed_root floats w kids t rest a h e =
    ap (λ x. x ++ rest) (some-injective t (whole ++ (10 ∷ [])) (sym e ∙ printed))
    ∙ append_assoc whole (10 ∷ []) rest
    ∙ ap (λ x. b'[' ∷ b' ' ∷ x)
        (append_assoc (text kids) (end_text (some w)) (10 ∷ rest)
          ∙ ap (λ x. text kids ++ x)
              (ap (λ x. x ++ (10 ∷ rest)) (root_end w a) ∙ append_assoc w sep (10 ∷ rest)))
  where
    whole : Bytes
    whole = text (cons (node (some w) group kids) nil)

    printed : bstr floats (node (some w) group kids) ≡ some (whole ++ (10 ∷ []))
    printed =
        rw (catbstr-text floats [] (cons (node (some w) group kids) nil) (word-IsEnd w a, h, tt))
          refl

parse_seq_buffer :
    (fuel : ℕ) (floats : Floats) (buffer : Bytes) (p : ℕ) (w : Bytes) (kids : Nodes) (rest : Bytes)
    → IsWord w
    → IsReadable kids
    → blob_count kids < fuel
    → length buffer < 2 ^ 64
    → is_space_at_end (last_byte buffer) ≡ true
    → no_newline rest ≡ true
    → drop p buffer ≡ root_text w kids rest
    → parse_seq fuel floats buffer p
      ≡ parsed (some (node (some w) group kids)) (p + (2 + length (text kids) + length w + 2))
unfolding parse_seq execute init
parse_seq_buffer fuel floats buffer p w kids rest a h f s l n e =
    rw (l, inside, e)
      (after_lem floats buffer fuel (goes floats buffer p (root_text w kids rest) (between 0 0 []))
        ∙ ap (λ x. resume floats buffer x p (root_text w kids rest) (between 0 0 [])) enough
        ∙ resume_root floats buffer s (fuel - blob_count kids - 1) p w kids rest a h e n)
  where
    inside : leb p (length buffer) ≡ true
    inside = ground (arith, fits_in p b'[' _ buffer e)

    enough : fuel ≡ blob_count kids + suc (fuel - blob_count kids - 1)
    enough = omega arith

-- A tree that Node_bstr has printed, anywhere in a buffer, is what Node_parse_seq reads there: it
-- returns the same tree and the place behind its newline. The root is a group that a word names;
-- below it there are numbers below 2 ^ 64, strings without quotes and zeros, blobs, groups and
-- attributes. The buffer ends in white space, is shorter than 2 ^ 64 bytes, and has no newline
-- behind the tree's own.
pub parse_seq-bstr :
    (fuel : ℕ) (floats : Floats) (root : Node) (t before rest : Bytes)
    → IsReadableRoot root
    → blob_count (cons root nil) < fuel
    → bstr floats root ≡ some t
    → length (before ++ (t ++ rest)) < 2 ^ 64
    → is_space_at_end (last_byte (before ++ (t ++ rest))) ≡ true
    → no_newline rest ≡ true
    → parse_seq fuel floats (before ++ (t ++ rest)) (length before)
      ≡ parsed (some root) (length before + length t)
parse_seq-bstr fuel floats (node none _ kids) t before rest r f e s l n = absurd r
parse_seq-bstr fuel floats (node (some w) (number _) kids) t before rest r f e s l n = absurd r
parse_seq-bstr fuel floats (node (some w) (string _) kids) t before rest r f e s l n = absurd r
parse_seq-bstr fuel floats (node (some w) (blob _) kids) t before rest r f e s l n = absurd r
parse_seq-bstr fuel floats (node (some w) (floating _) kids) t before rest r f e s l n = absurd r
parse_seq-bstr fuel floats (node (some w) group kids) t before rest r f e s l n =
    parse_seq_buffer fuel floats (before ++ (t ++ rest)) (length before) w kids rest r.0 r.1
      (omega (arith, f)) s l n
      (drop-append before (t ++ rest) ∙ printed_root floats w kids t rest r.0 r.1 e)
    ∙ ap (λ x. parsed (some (node (some w) group kids)) (length before + x)) long
  where
    long : 2 + length (text kids) + length w + 2 ≡ length t
    long = omega (
      arith,
      ap length (printed_root floats w kids t [] r.0 r.1 e),
      length-append t [],
      length-append (text kids) (w ++ (b' ' ∷ 10 ∷ [])),
      length-append w (b' ' ∷ 10 ∷ []),
    )

-- A printed text ends in a newline.
pub last_byte-bstr :
    (floats : Floats) (n : Node) (t b : Bytes)
    → bstr floats n ≡ some t
    → is_space_at_end (last_byte (b ++ t)) ≡ true
unfolding bstr
last_byte-bstr floats n t b e = at (catbstr floats [] (cons n nil)) e
  where
    at :
        (o : Option Bytes)
        → (o >>= λ x. some (x ++ (10 ∷ []))) ≡ some t
        → is_space_at_end (last_byte (b ++ t)) ≡ true
    at none h = cc
    at (some x) h =
        ap (λ y. is_space_at_end (last_byte y))
          (ap (λ y. b ++ y) (some-injective t (x ++ (10 ∷ [])) (sym h))
            ∙ sym (append_assoc b x (10 ∷ [])))
        ∙ ap is_space_at_end (last_byte-append (b ++ x) 10)

-- The text of a root does not begin with a newline.
pub no_newline-bstr :
    (floats : Floats) (root : Node) (t : Bytes)
    → IsReadableRoot root
    → bstr floats root ≡ some t
    → no_newline t ≡ true
no_newline-bstr floats (node none _ kids) t r e = absurd r
no_newline-bstr floats (node (some w) (number _) kids) t r e = absurd r
no_newline-bstr floats (node (some w) (string _) kids) t r e = absurd r
no_newline-bstr floats (node (some w) (blob _) kids) t r e = absurd r
no_newline-bstr floats (node (some w) (floating _) kids) t r e = absurd r
no_newline-bstr floats (node (some w) group kids) t r e =
    ap no_newline (sym (append-nil t) ∙ printed_root floats w kids t [] r.0 r.1 e)

-- Node_parse reads what Node_bstr has printed.
pub parse-bstr :
    (fuel : ℕ) (floats : Floats) (root : Node) (t : Bytes)
    → IsReadableRoot root
    → blob_count (cons root nil) < fuel
    → bstr floats root ≡ some t
    → length t < 2 ^ 64
    → parse fuel floats t ≡ parsed (some root) (length t)
unfolding parse
parse-bstr fuel floats root t r f e s =
    ap (λ x. parse_seq fuel floats x 0) (sym (append-nil t))
    ∙ parse_seq-bstr fuel floats root t [] [] r f e
        (subst (λ x. length x < 2 ^ 64) (sym (append-nil t)) s)
        (ap (λ x. is_space_at_end (last_byte x)) (append-nil t) ∙ last_byte-bstr floats root t [] e)
        refl
    ∙ ap (λ x. parsed (some root) x) (omega arith)
