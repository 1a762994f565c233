-- ===== src/Stackish/Bytes.antt =====
-- The driver, byte by byte.
use utu.Prelude.{
  ap, refl, ◌∙◌, ◌++◌, length, get_or, arith, ℕ, ◌+◌, ◌≡◌, false, Option, some, List, [], ◌∷◌, ◌==◌,
  if◌then◌else◌, ◌>>=◌,
}
use utu.Stackish.Text.{All}
use utu.Stackish.Node.{Bytes, Floats}
use utu.Stackish.Tables.{Action, next, parser_error}
use utu.Stackish.Sequence.{last_byte}
use utu.Stackish.Parser.{Parser, Step, run_actions, perform, feed, drive}

-- What the driver does after a byte.
abbrev pub onward : Floats → Bytes → ℕ → Bytes → Step → Option Parser
onward floats buffer p rest step = step >>= λ (u, left).
    if left
    then some (record u { nread = p })
    else if u.cs == parser_error
    then some (record u { nread = p })
    else drive floats buffer (p + 1) rest u

pub drive-cons :
    (floats : Floats) (buffer : Bytes) (p c : ℕ) (rest : Bytes) (s : Parser) (cs target : ℕ)
    (acts : List Action)
    → (cs == parser_error) ≡ false
    → next cs c ≡ (target, acts)
    → drive floats buffer p (c ∷ rest) (record s { cs = cs })
      ≡ onward floats buffer p rest (run_actions floats buffer p acts (record s { cs = target }))
unfolding drive feed
drive-cons floats buffer p c rest s cs target acts h e = rw (h, e)

-- A byte without an action.
pub drive-quiet :
    (floats : Floats) (buffer : Bytes) (p c : ℕ) (rest : Bytes) (s : Parser) (cs target : ℕ)
    → (cs == parser_error) ≡ false
    → (target == parser_error) ≡ false
    → next cs c ≡ (target, [])
    → drive floats buffer p (c ∷ rest) (record s { cs = cs })
      ≡ drive floats buffer (p + 1) rest (record s { cs = target })
unfolding drive feed run_actions
drive-quiet floats buffer p c rest s cs target h t e = rw (h, e, t)

-- A byte whose actions go on.
pub drive-acts :
    (floats : Floats) (buffer : Bytes) (p c : ℕ) (rest : Bytes) (s u : Parser) (cs target : ℕ)
    (acts : List Action)
    → (cs == parser_error) ≡ false
    → next cs c ≡ (target, acts)
    → run_actions floats buffer p acts (record s { cs = target }) ≡ some (u, false)
    → (u.cs == parser_error) ≡ false
    → drive floats buffer p (c ∷ rest) (record s { cs = cs }) ≡ drive floats buffer (p + 1) rest u
drive-acts floats buffer p c rest s u cs target acts h e r k =
    drive-cons floats buffer p c rest s cs target acts h e ∙ rw (r, k) refl

-- A byte that marks its place.
pub drive-mark :
    (floats : Floats) (buffer : Bytes) (p c : ℕ) (rest : Bytes) (s : Parser) (cs target : ℕ)
    → (cs == parser_error) ≡ false
    → (target == parser_error) ≡ false
    → next cs c ≡ (target, Action.mark_here ∷ [])
    → drive floats buffer p (c ∷ rest) (record s { cs = cs })
      ≡ drive floats buffer (p + 1) rest (record s { cs = target; mark = p })
unfolding run_actions perform
drive-mark floats buffer p c rest s cs target h t e =
    drive-acts floats buffer p c rest s (record s { cs = target; mark = p }) cs target
      (Action.mark_here ∷ []) h e refl t

-- Bytes that stay in a state.
pub drive-run :
    (floats : Floats) (buffer : Bytes) (P : ℕ → Type 0) (cs : ℕ)
    → (cs == parser_error) ≡ false
    → ((c : ℕ) → P c → next cs c ≡ (cs, []))
    → (w rest : Bytes) (p : ℕ) (s : Parser) → All P w
    → drive floats buffer p (w ++ rest) (record s { cs = cs })
      ≡ drive floats buffer (p + length w) rest (record s { cs = cs })
drive-run floats buffer P cs h n [] rest p s a =
    ap (λ q. drive floats buffer q rest (record s { cs = cs })) (omega arith)
drive-run floats buffer P cs h n (c ∷ w) rest p s a =
    drive-quiet floats buffer p c (w ++ rest) s cs cs h h (n c a.0)
    ∙ drive-run floats buffer P cs h n w rest (p + 1) s a.1
    ∙ ap (λ q. drive floats buffer q rest (record s { cs = cs })) (omega arith)

get_or-last :
    (x : ℕ) (b : Bytes) (c : ℕ) → get_or (x ∷ (b ++ (c ∷ []))) (length (b ++ (c ∷ []))) 0 ≡ c
get_or-last x [] c = refl
get_or-last x (y ∷ b) c = get_or-last y b c

pub last_byte-append : (b : Bytes) (c : ℕ) → last_byte (b ++ (c ∷ [])) ≡ c
last_byte-append [] c = refl
last_byte-append (x ∷ b) c = ground (arith, get_or-last x b c)
