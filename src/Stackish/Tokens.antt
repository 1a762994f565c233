-- ===== src/Stackish/Tokens.antt =====
-- What the driver makes of one printed token, from the state between tokens to the state between
-- tokens.
use utu.Prelude.{
  ℕ, suc, ◌+◌, ◌-◌, ◌≡◌, refl, ap, ◌∙◌, true, false, Option, none, some, List, [], ◌∷◌, ◌++◌,
  length, drop, drop_along, take-append, arith, leb,
}
use utu.Stackish.Node.{Bytes, Floats, Value, Node, Nodes, node, nil, cons, number, string, group}
use utu.Stackish.Tables.{Action, next}
use utu.Stackish.Parser.{
  Frame, Parser, run_actions, perform, drive, number_from, blk2bstr, handle_push, handle_word,
  handle_attr, handle_start,
}
use utu.Stackish.Bytes.{drive-cons, drive-quiet, drive-acts, drive-mark, drive-run}
use utu.Stackish.Text.{All, IsDigitByte, IsNumeral, IsWordByte, IsStringByte, IsWord}
use utu.Stackish.Classes

-- The parser between tokens.
abbrev pub between : ℕ → ℕ → List Frame → Parser
between nread mark open_groups = record {
  cs = 10;
  more = 0;
  nread = nread;
  mark = mark;
  open_groups = open_groups;
  range_error = false;
}

abbrev pub push_kid : Node → Frame → Frame
push_kid n f = record f { kids = cons n f.kids }

pub blk2bstr_lem :
    (buffer : Bytes) (m q : ℕ) (t rest : Bytes)
    → drop m buffer ≡ t ++ rest
    → q ≡ m + length t
    → blk2bstr buffer m q ≡ some t
blk2bstr_lem buffer m q t rest e h =
    rw (e, h, le_add m (length t), add-sub m (length t)) (ap some (take-append t rest))
  where
    le_add : (a b : ℕ) → leb a (a + b) ≡ true
    le_add a b = ground arith

    add-sub : (a b : ℕ) → a + b - a ≡ b
    add-sub a b = omega arith

module _ (floats : Floats) (buffer : Bytes) where
  abbrev pub goes : ℕ → Bytes → Parser → Option Parser
  goes p bytes s = drive floats buffer p bytes s

  pub at_place : {p q : ℕ} (rest : Bytes) (s : Parser) → p ≡ q → goes p rest s ≡ goes q rest s
  at_place rest s e = ap (λ k. goes k rest s) e

  -- A number, and the space behind it.
  pub drive-number :
      (tok rest : Bytes) (n p k m : ℕ) (f : Frame) (fs : List Frame)
      → IsNumeral tok
      → drop p buffer ≡ tok ++ (b' ' ∷ rest)
      → number_from (tok ++ (b' ' ∷ rest)) (length tok) ≡ some (number n)
      → goes p (tok ++ (b' ' ∷ rest)) (between k m (f ∷ fs))
        ≡ goes
            (p + (length tok + 1))
            rest
            (between k p (push_kid (node none (number n) nil) f ∷ fs))
  unfolding next run_actions perform handle_push
  drive-number [] rest n p k m f fs d e h = absurd d
  drive-number (c ∷ w) rest n p k m f fs d e h =
      drive-mark floats buffer p c (w ++ (b' ' ∷ rest)) s 10 14 refl refl
        (Classes.next-number_first c d.0.0 d.0.1)
      ∙ drive-run floats buffer IsDigitByte 14 refl (λ x h. Classes.next-number_byte x h.0 h.1) w
          (b' ' ∷ rest) (p + 1) (record s { mark = p }) d.1
      ∙ drive-acts floats buffer (p + 1 + length w) b' ' rest (record s { mark = p })
          (between k p (push_kid (node none (number n) nil) f ∷ fs)) 14 10 (Action.push_number ∷ [])
          refl refl (rw (e, length_back p (length w), h) refl) refl
      ∙ at_place rest _ (omega arith)
    where
      s : Parser
      s = between k m (f ∷ fs)

      length_back : (a b : ℕ) → a + 1 + b - a ≡ suc b
      length_back a b = omega arith

  -- The opening of a group, and its end by a bracket, with the space behind.
  pub drive-open :
      (rest : Bytes) (p k m : ℕ) (fs : List Frame)
      → goes p (b'[' ∷ b' ' ∷ rest) (between k m fs)
        ≡ goes (p + 2) rest (between k m (record { name = none; kids = nil } ∷ fs))
  unfolding next run_actions perform handle_start
  drive-open rest p k m fs =
      drive-acts floats buffer p b'[' (b' ' ∷ rest) (between k m fs)
        (between k m (record { name = none; kids = nil } ∷ fs)) 10 10 (Action.open_group ∷ []) refl
        refl refl refl
      ∙ drive-quiet floats buffer (p + 1) b' ' rest
          (between k m (record { name = none; kids = nil } ∷ fs)) 10 10 refl refl refl
      ∙ at_place rest _ (omega arith)

  pub drive-bracket :
      (rest : Bytes) (p k m : ℕ) (f g : Frame) (fs : List Frame)
      → goes p (b']' ∷ b' ' ∷ rest) (between k m (f ∷ g ∷ fs))
        ≡ goes (p + 2) rest (between k m (push_kid (node none group f.kids) g ∷ fs))
  unfolding next run_actions perform handle_word
  drive-bracket rest p k m f g fs =
      drive-acts floats buffer p b']' (b' ' ∷ rest) (between k m (f ∷ g ∷ fs))
        (between k m (push_kid (node none group f.kids) g ∷ fs)) 10 10 (Action.end_group ∷ []) refl
        refl refl refl
      ∙ drive-quiet floats buffer (p + 1) b' ' rest
          (between k m (push_kid (node none group f.kids) g ∷ fs)) 10 10 refl refl refl
      ∙ at_place rest _ (omega arith)

  -- A word up to the space behind it, which is not read.
  drive-to_word :
      (w rest : Bytes) (p k m : ℕ) (fs : List Frame)
      → IsWord w
      → goes p (w ++ (b' ' ∷ rest)) (between k m fs)
        ≡ goes (p + length w) (b' ' ∷ rest) (record (between k p fs) { cs = 13 })
  drive-to_word [] rest p k m fs d = absurd d
  drive-to_word (c ∷ w) rest p k m fs d =
      drive-mark floats buffer p c (w ++ (b' ' ∷ rest)) (between k m fs) 10 13 refl refl
        (Classes.next-word_first c d.0 d.1)
      ∙ drive-run floats buffer IsWordByte 13 refl (λ x h. Classes.next-word_byte x h.0 h.1) w
          (b' ' ∷ rest) (p + 1) (between k p fs) d.2
      ∙ at_place (b' ' ∷ rest) _ (omega arith)

  -- A word that ends a group, and the space behind it.
  pub drive-word :
      (w rest : Bytes) (p k m : ℕ) (f g : Frame) (fs : List Frame)
      → IsWord w
      → drop p buffer ≡ w ++ (b' ' ∷ rest)
      → goes p (w ++ (b' ' ∷ rest)) (between k m (f ∷ g ∷ fs))
        ≡ goes
            (p + (length w + 1))
            rest
            (between k p (push_kid (node (some w) group f.kids) g ∷ fs))
  unfolding next run_actions perform handle_word
  drive-word w rest p k m f g fs d e =
      drive-to_word w rest p k m (f ∷ g ∷ fs) d
      ∙ drive-acts floats buffer (p + length w) b' ' rest (between k p (f ∷ g ∷ fs))
          (between k p (push_kid (node (some w) group f.kids) g ∷ fs)) 13 10 (Action.end_word ∷ [])
          refl refl
          (rw (run_actions, perform, blk2bstr_lem buffer p (p + length w) w (b' ' ∷ rest) e refl)
            refl)
          refl
      ∙ at_place rest _ (omega arith)

  -- A word that ends the root stops the driver at the space behind it.
  pub drive-root :
      (w rest : Bytes) (p k m : ℕ) (f : Frame)
      → IsWord w
      → drop p buffer ≡ w ++ (b' ' ∷ rest)
      → goes p (w ++ (b' ' ∷ rest)) (between k m (f ∷ []))
        ≡ some (between (p + length w) p (record f { name = some w } ∷ []))
  unfolding next run_actions perform handle_word
  drive-root w rest p k m f d e =
      drive-to_word w rest p k m (f ∷ []) d
      ∙ drive-cons floats buffer (p + length w) b' ' rest (between k p (f ∷ [])) 13 10
          (Action.end_word ∷ []) refl refl
      ∙ rw (run_actions, perform, blk2bstr_lem buffer p (p + length w) w (b' ' ∷ rest) e refl) refl

  -- An attribute of the newest child, and the space behind it.
  pub drive-attr :
      (w rest : Bytes) (p k m : ℕ) (name : Option Bytes) (v : Value) (kids more : Nodes) (f : Frame)
      (fs : List Frame)
      → IsWord w
      → f.kids ≡ cons (node name v kids) more
      → drop p buffer ≡ (b'@' ∷ w) ++ (b' ' ∷ rest)
      → goes p ((b'@' ∷ w) ++ (b' ' ∷ rest)) (between k m (f ∷ fs))
        ≡ goes
            (p + (length w + 2))
            rest
            (between k p (record f { kids = cons (node (some (b'@' ∷ w)) v kids) more } ∷ fs))
  unfolding next run_actions perform handle_attr
  drive-attr [] rest p k m name v kids more f fs d h e = absurd d
  drive-attr (c ∷ w) rest p k m name v kids more f fs d h e =
      drive-mark floats buffer p b'@' ((c ∷ w) ++ (b' ' ∷ rest)) (between k m (f ∷ fs)) 10 9 refl
        refl refl
      ∙ drive-quiet floats buffer (p + 1) c (w ++ (b' ' ∷ rest)) (between k p (f ∷ fs)) 9 12 refl
          refl (Classes.next-attr_first c d.0 d.1)
      ∙ drive-run floats buffer IsWordByte 12 refl (λ x h. Classes.next-attr_byte x h.0 h.1) w
          (b' ' ∷ rest) (p + 1 + 1) (between k p (f ∷ fs)) d.2
      ∙ drive-acts floats buffer (p + 1 + 1 + length w) b' ' rest (between k p (f ∷ fs))
          (between k p (record f { kids = cons (node (some (b'@' ∷ c ∷ w)) v kids) more } ∷ fs)) 12
          10 (Action.set_attr ∷ []) refl refl
          (rw
            (
              h,
              blk2bstr_lem buffer p (p + 1 + 1 + length w) (b'@' ∷ c ∷ w) (b' ' ∷ rest) e
                  (omega arith),
            )
            refl)
          refl
      ∙ at_place rest _ (omega arith)

  -- A string, and the space behind it.
  pub drive-string :
      (t rest : Bytes) (p k m : ℕ) (f : Frame) (fs : List Frame)
      → All IsStringByte t
      → drop p buffer ≡ b'"' ∷ (t ++ (b'"' ∷ b' ' ∷ rest))
      → goes p (b'"' ∷ (t ++ (b'"' ∷ b' ' ∷ rest))) (between k m (f ∷ fs))
        ≡ goes
            (p + (length t + 3))
            rest
            (between k (p + 1) (push_kid (node none (string (some t)) nil) f ∷ fs))
  unfolding next run_actions perform handle_push
  drive-string [] rest p k m f fs a e =
      drive-quiet floats buffer p b'"' (b'"' ∷ b' ' ∷ rest) (between k m (f ∷ fs)) 10 1 refl refl
        refl
      ∙ drive-acts floats buffer (p + 1) b'"' (b' ' ∷ rest) (between k m (f ∷ fs)) done 1 10
          (Action.mark_here ∷ Action.push_string ∷ []) refl refl
          (rw
            (blk2bstr_lem buffer (p + 1) (p + 1) [] (b'"' ∷ b' ' ∷ rest)
              (drop_along p (b'"' ∷ []) (b'"' ∷ b' ' ∷ rest) buffer e) (omega arith))
            refl)
          refl
      ∙ drive-quiet floats buffer (p + 1 + 1) b' ' rest done 10 10 refl refl refl
      ∙ at_place rest _ (omega arith)
    where
      done : Parser
      done = between k (p + 1) (push_kid (node none (string (some [])) nil) f ∷ fs)
  drive-string (c ∷ t) rest p k m f fs a e =
      drive-quiet floats buffer p b'"' ((c ∷ t) ++ (b'"' ∷ b' ' ∷ rest)) (between k m (f ∷ fs)) 10 1
        refl refl refl
      ∙ drive-mark floats buffer (p + 1) c (t ++ (b'"' ∷ b' ' ∷ rest)) (between k m (f ∷ fs)) 1 2
          refl refl (Classes.next-string_first c a.0.0 a.0.1)
      ∙ drive-run floats buffer IsStringByte 2 refl (λ x h. Classes.next-string_byte x h.0 h.1) t
          (b'"' ∷ b' ' ∷ rest) (p + 1 + 1) (between k (p + 1) (f ∷ fs)) a.1
      ∙ drive-acts floats buffer (p + 1 + 1 + length t) b'"' (b' ' ∷ rest)
          (between k (p + 1) (f ∷ fs)) done 2 10 (Action.push_string ∷ []) refl refl
          (rw
            (blk2bstr_lem buffer (p + 1) (p + 1 + 1 + length t) (c ∷ t) (b'"' ∷ b' ' ∷ rest)
              (drop_along p (b'"' ∷ []) ((c ∷ t) ++ (b'"' ∷ b' ' ∷ rest)) buffer e) (omega arith))
            refl)
          refl
      ∙ drive-quiet floats buffer (p + 1 + 1 + length t + 1) b' ' rest done 10 10 refl refl refl
      ∙ at_place rest _ (omega arith)
    where
      done : Parser
      done = between k (p + 1) (push_kid (node none (string (some (c ∷ t))) nil) f ∷ fs)
