-- ===== src/Stackish/Attribute.antt =====
-- An attribute outside every group.
use utu.Prelude.{ℕ, ◌+◌, ◌<◌, ◌≡◌, refl, true, none, [], ◌∷◌, ◌++◌, ◌∙◌, arith}
use utu.Stackish.Node.{Bytes, Floats}
use utu.Stackish.Tables.{Action, next}
use utu.Stackish.Parser.{Parser, init, perform, run_actions, drive}
use utu.Stackish.Sequence.{crashed, parse}
use utu.Stackish.Bytes.{last_byte-append, drive-cons, drive-quiet}
use utu.Stackish.Text.{All, IsWordByte}
use utu.Stackish.Classes.{is_alpha, next-attr_first, next-attr_byte}

-- The rest of an attribute's name up to a space, with no group open.
drive-attr :
    (floats : Floats) (buffer : Bytes) (w : Bytes) (p : ℕ) (s : Parser)
    → All IsWordByte w
    → s.open_groups ≡ []
    → drive floats buffer p (w ++ (b' ' ∷ [])) (record s { cs = 12 }) ≡ none
unfolding next run_actions perform
drive-attr floats buffer [] p s a o =
    drive-cons floats buffer p b' ' [] s 12 10 (Action.set_attr ∷ []) refl refl ∙ rw o
drive-attr floats buffer (c ∷ w) p s a o =
    drive-quiet floats buffer p c (w ++ (b' ' ∷ [])) s 12 12 refl refl
      (next-attr_byte c a.0.0 a.0.1)
    ∙ drive-attr floats buffer w (p + 1) s a.1 o

-- A text that names an attribute before any group is open, such as "@a ", stops the process: the
-- parser follows its current node, which is null.
pub parse-attr :
    (fuel : ℕ) (floats : Floats) (c : ℕ) (w : Bytes)
    → c < 256
    → is_alpha c ≡ true
    → All IsWordByte w
    → parse fuel floats ((b'@' ∷ c ∷ w) ++ (b' ' ∷ [])) ≡ crashed
unfolding parse next run_actions perform
parse-attr fuel floats c w h i a = rw (last_byte-append (b'@' ∷ c ∷ w) b' ') (
    rw
      (
        drive-cons floats text 0 b'@' _ init 10 9 (Action.mark_here ∷ []) refl refl,
        drive-quiet floats text 1 c _ init 9 12 refl refl (next-attr_first c h i),
        drive-attr floats text w 2 (record init { mark = 0 }) a refl,
      )
      (ground arith))
  where
    text : Bytes
    text = (b'@' ∷ c ∷ w) ++ (b' ' ∷ [])
