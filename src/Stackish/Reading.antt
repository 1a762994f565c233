-- ===== src/Stackish/Reading.antt =====
-- The driver over the text of nodes.
use utu.Prelude.{
  ℕ, suc, ◌+◌, ◌^◌, ◌≡◌, ◌<◌, refl, sym, subst, ap, ap₂, ◌∙◌, inl, inr, Option, none, some, List,
  [], ◌∷◌, ◌++◌, length, length-append, drop, drop_along, arith, append_assoc,
}
use utu.Stackish.Node.{
  Bytes, Floats, Value, Node, Nodes, node, nil, cons, number, string, blob, floating, group,
}
use utu.Stackish.Parser.{Frame, Parser}
use utu.Stackish.Print.{decimal, sep}
use utu.Stackish.Numbers.{number_from-decimal, decimal-IsNumeral}
use utu.Stackish.Text.{
  IsLeaf, IsAttr, IsEnd, IsWord, IsReadable, text, attr_text, end_text, leaf_text, bracket_text,
  blob_stops, blob_count, alpha-not_at,
}
use utu.Stackish.Tokens.{
  between, push_kid, goes, drive-number, drive-string, drive-attr, drive-word, drive-open,
  drive-bracket,
}
use utu.Stackish.Blobs.{after, resume, blob_bytes, empty_blob, full_blob}
use utu.Stackish.Sequence.{Outcome}

-- Nodes in front of others.
abbrev pub onto : Nodes → Nodes → Nodes
onto nil ks = ks
onto (cons n rest) ks = cons n (onto rest ks)

pub onto-nil : (ns : Nodes) → onto ns nil ≡ ns
onto-nil nil = refl
onto-nil (cons n rest) = ap (λ x. cons n x) (onto-nil rest)

abbrev pub add_kids : Nodes → Frame → Frame
add_kids ns f = record f { kids = onto ns f.kids }

module _ (floats : Floats) (buffer : Bytes) (small : length buffer < 2 ^ 64) where
  abbrev go : ℕ → ℕ → Bytes → Parser → Outcome
  go fuel p bytes s = resume floats buffer fuel p bytes s

  -- One token of another text at the same place.
  token :
      (fuel p q q' : ℕ) (bytes bytes' rest : Bytes) (s u : Parser)
      → bytes ≡ bytes'
      → goes floats buffer p bytes' s ≡ goes floats buffer q rest u
      → q ≡ q'
      → go fuel p bytes s ≡ go fuel q' rest u
  token fuel p q q' bytes bytes' rest s u b d e =
      ap (λ x. go fuel p x s) b ∙ ap (after floats buffer fuel) d ∙ ap (λ x. go fuel x rest u) e

  reads_attr :
      (fuel p k m : ℕ) (name : Option Bytes) (v : Value) (kids : Nodes) (f : Frame)
      (fs : List Frame) (rest : Bytes) (out : Outcome)
      → IsAttr name
      → drop p buffer ≡ attr_text name ++ rest
      → ((k m : ℕ)
          → go fuel
              (p + length (attr_text name))
              rest
              (between k m (push_kid (node name v kids) f ∷ fs))
            ≡ out)
      → go fuel p (attr_text name ++ rest) (between k m (push_kid (node none v kids) f ∷ fs)) ≡ out
  reads_attr fuel p k m none v kids f fs rest out a e on =
      ap (λ x. go fuel x rest (between k m (push_kid (node none v kids) f ∷ fs))) (omega arith)
      ∙ on k m
  reads_attr fuel p k m (some []) v kids f fs rest out a e on = absurd a
  reads_attr fuel p k m (some (c ∷ w)) v kids f fs rest out a e on =
      token fuel p _ _ _ _ rest _ _ shape
        (drive-attr floats buffer w rest p k m none v kids f.kids (push_kid (node none v kids) f) fs
          a.1 refl (e ∙ shape))
        (omega (arith, length-append w sep))
      ∙ ap
          (λ x.
            go fuel (p + length ((c ∷ w) ++ sep)) rest
              (between k p (push_kid (node (some (x ∷ w)) v kids) f ∷ fs)))
          (sym a.0)
      ∙ on k p
    where
      shape : ((c ∷ w) ++ sep) ++ rest ≡ (b'@' ∷ w) ++ (b' ' ∷ rest)
      shape = append_assoc (c ∷ w) sep rest ∙ ap (λ x. (x ∷ w) ++ (b' ' ∷ rest)) a.0

  reads_value :
      (fuel p k m : ℕ) (v : Value) (f : Frame) (fs : List Frame) (rest : Bytes) (out : Outcome)
      → IsLeaf v
      → drop p buffer ≡ leaf_text v ++ rest
      → ((k m : ℕ)
          → go fuel
              (p + length (leaf_text v))
              rest
              (between k m (push_kid (node none v nil) f ∷ fs))
            ≡ out)
      → go (blob_stops v + fuel) p (leaf_text v ++ rest) (between k m (f ∷ fs)) ≡ out
  reads_value fuel p k m (number n) f fs rest out l e on =
      ap (λ x. go x p (leaf_text (number n) ++ rest) (between k m (f ∷ fs))) zero_add
      ∙ token fuel p _ _ _ _ rest _ _ shape
          (drive-number floats buffer (decimal 20 n) rest n p k m f fs (decimal-IsNumeral 19 n)
            (e ∙ shape) (number_from-decimal n rest l))
          (omega (arith, length-append (decimal 20 n) sep))
      ∙ on k p
    where
      zero_add : 0 + fuel ≡ fuel
      zero_add = omega arith

      shape : (decimal 20 n ++ sep) ++ rest ≡ decimal 20 n ++ (b' ' ∷ rest)
      shape = append_assoc (decimal 20 n) sep rest
  reads_value fuel p k m (string none) f fs rest out l e on = absurd l
  reads_value fuel p k m (string (some t)) f fs rest out l e on =
      ap (λ x. go x p (leaf_text (string (some t)) ++ rest) (between k m (f ∷ fs))) zero_add
      ∙ token fuel p _ _ _ _ rest _ _ shape
          (drive-string floats buffer t rest p k m f fs l (e ∙ shape))
          (omega (arith, length-append t (b'"' ∷ sep)))
      ∙ on k (p + 1)
    where
      zero_add : 0 + fuel ≡ fuel
      zero_add = omega arith

      shape : (b'"' ∷ (t ++ (b'"' ∷ sep))) ++ rest ≡ b'"' ∷ (t ++ (b'"' ∷ b' ' ∷ rest))
      shape = ap (λ x. b'"' ∷ x) (append_assoc t (b'"' ∷ sep) rest)
  reads_value fuel p k m (blob none) f fs rest out l e on = absurd l
  reads_value fuel p k m (blob (some [])) f fs rest out l e on =
      ap (λ x. go x p (leaf_text (blob (some [])) ++ rest) (between k m (f ∷ fs))) zero_add
      ∙ token fuel p _ _ _ _ rest _ _ shape (empty_blob floats buffer rest p k m f fs (e ∙ shape))
          (omega (arith, length-append (decimal 20 0) (b':' ∷ b'\'' ∷ sep)))
      ∙ on k _
    where
      zero_add : 0 + fuel ≡ fuel
      zero_add = omega arith

      shape :
          (b'\'' ∷ (decimal 20 0 ++ (b':' ∷ b'\'' ∷ sep))) ++ rest
          ≡ blob_bytes floats buffer [] rest
      shape = ap (λ x. b'\'' ∷ x) (append_assoc (decimal 20 0) (b':' ∷ b'\'' ∷ sep) rest)
  reads_value fuel p k m (blob (some (c ∷ t))) f fs rest out l e on =
      ap (λ x. go x p (leaf_text (blob (some (c ∷ t))) ++ rest) (between k m (f ∷ fs))) one_add
      ∙ ap (λ x. go (suc fuel) p x (between k m (f ∷ fs))) shape
      ∙ full_blob floats buffer fuel c t rest p k m f fs l small (e ∙ shape)
      ∙ ap
          (λ x.
            go fuel x rest
              (between q (q + 1) (push_kid (node none (blob (some (c ∷ t))) nil) f ∷ fs)))
          ends
      ∙ on q (q + 1)
    where
      q : ℕ
      q = p + 1 + length (decimal 20 (length (c ∷ t)))

      one_add : 1 + fuel ≡ suc fuel
      one_add = omega arith

      digits : Bytes
      digits = decimal 20 (length (c ∷ t))

      shape :
          (b'\'' ∷ (digits ++ (b':' ∷ ((c ∷ t) ++ (b'\'' ∷ sep))))) ++ rest
          ≡ blob_bytes floats buffer (c ∷ t) rest
      shape =
          ap (λ x. b'\'' ∷ x)
            (append_assoc digits (b':' ∷ ((c ∷ t) ++ (b'\'' ∷ sep))) rest
              ∙ ap (λ x. digits ++ (b':' ∷ x)) (append_assoc (c ∷ t) (b'\'' ∷ sep) rest))

      ends :
          p + (length digits + (length (c ∷ t) + 4)) ≡ p + length (leaf_text (blob (some (c ∷ t))))
      ends = omega (
        arith,
        length-append digits (b':' ∷ ((c ∷ t) ++ (b'\'' ∷ sep))),
        length-append (c ∷ t) (b'\'' ∷ sep),
      )
  reads_value fuel p k m (floating x) f fs rest out l e on = absurd l
  reads_value fuel p k m group f fs rest out l e on = absurd l

  -- A leaf with its attribute.
  reads_leaf :
      (fuel p k m : ℕ) (v : Value) (name : Option Bytes) (f : Frame) (fs : List Frame)
      (rest : Bytes) (out : Outcome)
      → IsLeaf v
      → IsAttr name
      → drop p buffer ≡ (leaf_text v ++ attr_text name) ++ rest
      → ((k m : ℕ)
          → go fuel
              (p + length (leaf_text v ++ attr_text name))
              rest
              (between k m (push_kid (node name v nil) f ∷ fs))
            ≡ out)
      → go (blob_stops v + fuel) p ((leaf_text v ++ attr_text name) ++ rest) (between k m (f ∷ fs))
        ≡ out
  reads_leaf fuel p k m v name f fs rest out l a e on =
      ap (λ x. go (blob_stops v + fuel) p x (between k m (f ∷ fs))) shape
      ∙ reads_value fuel p k m v f fs (attr_text name ++ rest) out l (e ∙ shape) (λ k m.
        reads_attr fuel (p + length (leaf_text v)) k m name v nil f fs rest out a
          (drop_along p (leaf_text v) (attr_text name ++ rest) buffer (e ∙ shape))
          (λ k m.
            ap (λ x. go fuel x rest (between k m (push_kid (node name v nil) f ∷ fs))) ends
            ∙ on k m))
    where
      shape : (leaf_text v ++ attr_text name) ++ rest ≡ leaf_text v ++ (attr_text name ++ rest)
      shape = append_assoc (leaf_text v) (attr_text name) rest

      ends :
          p + length (leaf_text v) + length (attr_text name)
          ≡ p + length (leaf_text v ++ attr_text name)
      ends = omega (arith, length-append (leaf_text v) (attr_text name))

  -- What reading `bytes` as the end of a group means.
  abbrev Ends : Option Bytes → Bytes → Type 0
  Ends name bytes =
      (fuel p k m : ℕ) (kids : Nodes) (f : Frame) (fs : List Frame) (rest : Bytes) (out : Outcome)
      → drop p buffer ≡ bytes ++ rest
      → ((k m : ℕ)
          → go fuel (p + length bytes) rest (between k m (push_kid (node name group kids) f ∷ fs))
            ≡ out)
      → go fuel p (bytes ++ rest) (between k m (record { name = none; kids = kids } ∷ f ∷ fs)) ≡ out

  Ends-bracket : Ends none bracket_text
  Ends-bracket fuel p k m kids f fs rest out e on =
      ap (after floats buffer fuel)
        (drive-bracket floats buffer rest p k m (record { name = none; kids = kids }) f fs)
      ∙ on k m

  Ends-attr :
      (c : ℕ) (w : Bytes)
      → IsAttr (some (c ∷ w))
      → Ends (some (c ∷ w)) (bracket_text ++ ((c ∷ w) ++ sep))
  Ends-attr c w a fuel p k m kids f fs rest out e on =
      Ends-bracket fuel p k m kids f fs (((c ∷ w) ++ sep) ++ rest) out e (λ k m.
        reads_attr fuel (p + 2) k m (some (c ∷ w)) group kids f fs rest out a
          (drop_along p bracket_text (((c ∷ w) ++ sep) ++ rest) buffer e)
          (λ k m.
            ap
              (λ x. go fuel x rest (between k m (push_kid (node (some (c ∷ w)) group kids) f ∷ fs)))
              place
            ∙ on k m))
    where
      place : p + 2 + length ((c ∷ w) ++ sep) ≡ p + length (bracket_text ++ ((c ∷ w) ++ sep))
      place = omega arith

  Ends-word : (w : Bytes) → IsWord w → Ends (some w) (w ++ sep)
  Ends-word w a fuel p k m kids f fs rest out e on =
      token fuel p _ _ _ _ rest _ _ (append_assoc w sep rest)
        (drive-word floats buffer w rest p k m (record { name = none; kids = kids }) f fs a
          (e ∙ append_assoc w sep rest))
        (omega (arith, length-append w sep))
      ∙ on k p

  reads_end : (name : Option Bytes) → IsEnd name → Ends name (end_text name)
  reads_end none h = Ends-bracket
  reads_end (some []) h = absurd h
  reads_end (some (c ∷ w)) (inl h) =
      subst (λ x. Ends (some (c ∷ w)) x) (sym text_at) (Ends-attr c w h)
    where
      text_at : end_text (some (c ∷ w)) ≡ bracket_text ++ ((c ∷ w) ++ sep)
      text_at = rw h.0 refl
  reads_end (some (c ∷ w)) (inr h) =
      subst (λ x. Ends (some (c ∷ w)) x) (sym text_at) (Ends-word (c ∷ w) h)
    where
      text_at : end_text (some (c ∷ w)) ≡ (c ∷ w) ++ sep
      text_at = rw (alpha-not_at c h.1) refl

  -- What reading the text of nodes means.
  abbrev Reads : Nodes → Type 0
  Reads ns =
      (fuel p k m : ℕ) (f : Frame) (fs : List Frame) (rest : Bytes) (out : Outcome)
      → drop p buffer ≡ text ns ++ rest
      → ((k m : ℕ) → go fuel (p + length (text ns)) rest (between k m (add_kids ns f ∷ fs)) ≡ out)
      → go (blob_count ns + fuel) p (text ns ++ rest) (between k m (f ∷ fs)) ≡ out

  -- What reading `bytes` as one node means.
  abbrev ReadsOne : Node → Bytes → ℕ → Type 0
  ReadsOne n bytes stops =
      (fuel p k m : ℕ) (f : Frame) (fs : List Frame) (rest : Bytes) (out : Outcome)
      → drop p buffer ≡ bytes ++ rest
      → ((k m : ℕ) → go fuel (p + length bytes) rest (between k m (push_kid n f ∷ fs)) ≡ out)
      → go (stops + fuel) p (bytes ++ rest) (between k m (f ∷ fs)) ≡ out

  -- A node behind its elder siblings.
  Reads-after :
      (n : Node) (ns : Nodes) (bytes : Bytes) (stops : ℕ)
      → text (cons n ns) ≡ text ns ++ bytes
      → blob_count (cons n ns) ≡ blob_count ns + stops
      → ReadsOne n bytes stops
      → Reads ns
      → Reads (cons n ns)
  Reads-after n ns bytes stops te be one r fuel p k m f fs rest out e on =
      ap₂ (λ x y. go x p y (between k m (f ∷ fs))) count shape
      ∙ r (stops + fuel) p k m f fs (bytes ++ rest) out (e ∙ shape) (λ k m.
        one fuel (p + length (text ns)) k m (add_kids ns f) fs rest out
          (drop_along p (text ns) (bytes ++ rest) buffer (e ∙ shape))
          (λ k m.
            ap (λ x. go fuel x rest (between k m (push_kid n (add_kids ns f) ∷ fs))) place
            ∙ on k m))
    where
      shape : text (cons n ns) ++ rest ≡ text ns ++ (bytes ++ rest)
      shape = ap (λ x. x ++ rest) te ∙ append_assoc (text ns) bytes rest

      count : blob_count (cons n ns) + fuel ≡ blob_count ns + (stops + fuel)
      count = omega (arith, be)

      place : p + length (text ns) + length bytes ≡ p + length (text (cons n ns))
      place = omega (arith, length-append (text ns) bytes, ap length te)

  leaf_one :
      (v : Value) (name : Option Bytes)
      → IsLeaf v
      → IsAttr name
      → ReadsOne (node name v nil) (leaf_text v ++ attr_text name) (blob_stops v)
  leaf_one v name l a fuel p k m f fs rest out e on =
      reads_leaf fuel p k m v name f fs rest out l a e on

  group_one :
      (name : Option Bytes) (kids : Nodes)
      → IsEnd name
      → Reads kids
      → ReadsOne
          (node name group kids)
          (b'[' ∷ b' ' ∷ (text kids ++ end_text name))
          (blob_count kids)
  group_one name kids h rk fuel p k m f fs rest out e on =
      ap (after floats buffer (blob_count kids + fuel))
        (drive-open floats buffer ((text kids ++ end_text name) ++ rest) p k m (f ∷ fs))
      ∙ ap
          (λ x.
            go (blob_count kids + fuel) (p + 2) x
              (between k m (record { name = none; kids = nil } ∷ f ∷ fs)))
          shape
      ∙ rk fuel (p + 2) k m (record { name = none; kids = nil }) (f ∷ fs) (end_text name ++ rest)
          out inside
          (λ k m.
            ap
              (λ ks.
                go fuel (p + 2 + length (text kids)) (end_text name ++ rest)
                  (between k m (record { name = none; kids = ks } ∷ f ∷ fs)))
              (onto-nil kids)
            ∙ reads_end name h fuel (p + 2 + length (text kids)) k m kids f fs rest out
                (drop_along (p + 2) (text kids) (end_text name ++ rest) buffer inside)
                (λ k m.
                  ap (λ x. go fuel x rest (between k m (push_kid (node name group kids) f ∷ fs)))
                    place
                  ∙ on k m))
    where
      shape : (text kids ++ end_text name) ++ rest ≡ text kids ++ (end_text name ++ rest)
      shape = append_assoc (text kids) (end_text name) rest

      inside : drop (p + 2) buffer ≡ text kids ++ (end_text name ++ rest)
      inside =
          drop_along p (b'[' ∷ b' ' ∷ []) ((text kids ++ end_text name) ++ rest) buffer e ∙ shape

      place :
          p + 2 + length (text kids) + length (end_text name)
          ≡ p + length (b'[' ∷ b' ' ∷ (text kids ++ end_text name))
      place = omega (arith, length-append (text kids) (end_text name))

  pub Reads-nodes : (ns : Nodes) → IsReadable ns → Reads ns
  Reads-nodes nil h = λ fuel p k m f fs rest out e on.
      ap₂ (λ x y. go x y rest (between k m (f ∷ fs))) (omega arith) (omega arith) ∙ on k m
  Reads-nodes (cons (node name (floating x) kids) ns) h = absurd h
  Reads-nodes (cons (node name (number n) (cons _ _)) ns) h = absurd h.0
  Reads-nodes (cons (node name (number n) nil) ns) h =
      Reads-after (node name (number n) nil) ns _ (blob_stops (number n)) refl (omega arith)
        (leaf_one (number n) name h.1 h.2) (Reads-nodes ns h.3)
  Reads-nodes (cons (node name (string n) (cons _ _)) ns) h = absurd h.0
  Reads-nodes (cons (node name (string n) nil) ns) h =
      Reads-after (node name (string n) nil) ns _ (blob_stops (string n)) refl (omega arith)
        (leaf_one (string n) name h.1 h.2) (Reads-nodes ns h.3)
  Reads-nodes (cons (node name (blob n) (cons _ _)) ns) h = absurd h.0
  Reads-nodes (cons (node name (blob n) nil) ns) h =
      Reads-after (node name (blob n) nil) ns _ (blob_stops (blob n)) refl (omega arith)
        (leaf_one (blob n) name h.1 h.2) (Reads-nodes ns h.3)
  Reads-nodes (cons (node name group kids) ns) h =
      Reads-after (node name group kids) ns _ (blob_count kids) refl (omega arith)
        (group_one name kids h.0 (Reads-nodes kids h.1)) (Reads-nodes ns h.2)
