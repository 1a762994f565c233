-- ===== src/Message/Counts.antt =====
-- What taking and dropping a reference does to the count of every message.
use utu.Prelude.{
  ℕ, suc, ◌+◌, ◌^◌, ◌<◌, ◌≡◌, Option, none, some, arith, ◌==◌, if◌then◌else◌, lt→ltb, ◌%◌,
}
use native.Mathlib.Nat.{mod-eq_of_lt}
use utu.Message.{Store, put, ref_inc, destroy}

-- How many references there are: none for a message that was freed.
abbrev pub value : Option ℕ → ℕ
value none = 0
value (some r) = r

abbrev pub refs : Store → ℕ → ℕ
refs st p = value (st p)

pub ref_inc_lem :
    (p r : ℕ) (st : Store)
    → st p ≡ some r
    → r + 1 < 2 ^ 15
    → ref_inc p st ≡ some (put p (some (r + 1)) st)
unfolding ref_inc
ref_inc_lem p r st e h = rw (e, mod-eq_of_lt {n = r + 1} {m = 2 ^ 16} (omega arith))

pub destroy_lem :
    (p r : ℕ) (st : Store)
    → st p ≡ some (suc r)
    → suc r < 2 ^ 15
    → destroy p st ≡ some (put p (if r == 0 then none else some r) st)
unfolding destroy
destroy_lem p r st e h =
    let left : (suc r + 65535) % 2 ^ 16 ≡ r = omega arith in
    rw (e, left, lt→ltb r (2 ^ 15) (omega arith))
