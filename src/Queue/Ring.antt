-- ===== src/Queue/Ring.antt =====
-- The slots between the two indices, as a list.
use utu.Prelude.{
  ℕ, zero, suc, ◌+◌, ◌-◌, ◌^◌, ◌≤◌, ◌<◌, ◌≡◌, refl, ap₂, Option, none, List, [], ◌∷◌, ◌++◌, length,
  get_or, set, get_or-set_self, get_or-set_ne, arith, ltb, if◌then◌else◌,
}
use native.Mathlib.Nat.{mod-eq_of_lt, mod_self}
use native.Mathlib.Decide.{dec_lt}
use utu.Queue.{MsgQueue, step}

-- The position `n` slots behind `k`, once round at most.
abbrev pub pos : ℕ → ℕ → ℕ → ℕ
pos dim k n = if ltb (k + n) dim then k + n else k + n - dim

pub step_lem : (dim k : ℕ) → k < dim → dim < 2 ^ 64 → step dim k ≡ pos dim k 1
step_lem dim k h w = elim (dec_lt (k + 1) dim) [
  | yes p ↦ rw (mod-eq_of_lt {n = k + 1} {m = 2 ^ 64} (omega arith), mod-eq_of_lt p) (ground arith)
  | no p ↦
      let e : k + 1 ≡ dim = omega arith in
      rw (mod-eq_of_lt {n = k + 1} {m = 2 ^ 64} (omega arith), e) (ground (arith, mod_self dim))
]

module _ (slots : List (Option ℕ)) (dim : ℕ) where
  abbrev pub window : ℕ → ℕ → List (Option ℕ)
  window k zero = []
  window k (suc n) = get_or slots k none ∷ window (step dim k) n

-- Writing just behind a window extends it.
pub window-snoc :
    (slots : List (Option ℕ)) (dim : ℕ) (v : Option ℕ) (n h j : ℕ)
    → dim ≤ length slots
    → dim < 2 ^ 64
    → h < dim
    → n < dim
    → j ≡ pos dim h n
    → window (set slots j v) dim h (suc n) ≡ window slots dim h n ++ (v ∷ [])
window-snoc slots dim v zero h j s w hh hn e =
    let e' : j ≡ h = ground arith in rw (e', get_or-set_self slots h v none (omega arith))
window-snoc slots dim v (suc n) h j s w hh hn e =
    ap₂ ◌∷◌ (get_or-set_ne slots v none (ground arith)) (
      window-snoc slots dim v n (step dim h) j s w (ground (arith, step_lem dim h hh w))
        (omega arith) (ground (arith, step_lem dim h hh w)))

-- Writing in front of a window leaves it alone.
pub window-set_behind :
    (slots : List (Option ℕ)) (dim : ℕ) (v : Option ℕ) (n d i h : ℕ)
    → dim < 2 ^ 64
    → i < dim
    → h ≡ pos dim i (suc d)
    → suc d + n ≤ dim
    → window (set slots i v) dim h n ≡ window slots dim h n
window-set_behind slots dim v zero d i h w hi e b = refl
window-set_behind slots dim v (suc n) d i h w hi e b =
    let hh : h < dim = ground arith in
    ap₂ ◌∷◌ (get_or-set_ne slots v none (ground arith)) (
      window-set_behind slots dim v n (suc d) i (step dim h) w hi
        (ground (arith, step_lem dim h hh w)) (omega arith))

-- How many messages the queue holds.
abbrev pub held : MsgQueue → ℕ
held q = if ltb q.j q.i then q.j + q.dim - q.i else q.j - q.i

abbrev pub contents : MsgQueue → List (Option ℕ)
contents q = window q.messages q.dim q.i (held q)
