-- ===== src/Ragel.antt =====
-- The table driver that Ragel writes into src/hub/connection.c, src/hub/hub.c and
-- src/stackish/stackish.c: the same text three times, over other tables.
use utu.Prelude.{
  ℕ, zero, suc, ◌+◌, ◌-◌, ◌*◌, ◌/◌, ◌%◌, Bool, Option, none, some, List, get_or, ltb, if◌then◌else◌,
  take, drop,
}

-- The tables that select a transition.
pub record Tables : Type 0 where
  pub key_offsets : List ℕ
  pub trans_keys : List ℕ
  pub single_lengths : List ℕ
  pub range_lengths : List ℕ
  pub index_offsets : List ℕ

-- `char` is signed on the target: a byte stands for a number from -128 on, which is compared here
-- after adding 128.
abbrev pub char_lt : ℕ → ℕ → Bool
char_lt a b = ltb ((a + 128) % 256) ((b + 128) % 256)

-- `while (1)` over the single keys. `upper` is one more than `_upper - _keys`, so that the pointer
-- before the first key is 0. Each round narrows `[lower, upper)`, so `klen` rounds of fuel do.
unfoldable pub find_single : List ℕ → ℕ → ℕ → ℕ → ℕ → Option ℕ
find_single keys c zero lower upper = none
find_single keys c (suc fuel) lower upper =
    let mid = lower + (upper - 1 - lower) / 2 in
    let key = get_or keys mid 0 in
    let below = find_single keys c fuel lower mid in
    let above = find_single keys c fuel (mid + 1) upper in
    if ltb lower upper
    then if char_lt c key then below else if char_lt key c then above else some mid
    else none

-- The same over pairs of keys, each a range. `upper` is two more than `_upper - _keys`, and the
-- answer is the number of the pair.
unfoldable pub find_range : List ℕ → ℕ → ℕ → ℕ → ℕ → Option ℕ
find_range keys c zero lower upper = none
find_range keys c (suc fuel) lower upper =
    let mid = lower + (upper - 2 - lower) / 4 * 2 in
    let below = find_range keys c fuel lower mid in
    let above = find_range keys c fuel (mid + 2) upper in
    if ltb lower upper
    then if char_lt c (get_or keys mid 0)
      then below
      else if char_lt (get_or keys (mid + 1) 0) c
      then above
      else some (mid / 2)
    else none

-- From `_resume` to `_match`: the number of the transition of state `cs` on the byte `c`.
unfoldable pub select : Tables → ℕ → ℕ → ℕ
unfolding find_single find_range
select t cs c =
    let keys = drop (get_or t.key_offsets cs 0) t.trans_keys in
    let base = get_or t.index_offsets cs 0 in
    let singles = get_or t.single_lengths cs 0 in
    let ranges = get_or t.range_lengths cs 0 in
    elim (find_single keys c singles 0 singles) [
      | some i ↦ base + i
      | none ↦ elim (find_range (drop singles keys) c ranges 0 (ranges * 2)) [
        | some i ↦ base + singles + i
        | none ↦ base + singles + ranges
      ]
    ]

-- `_acts`: the actions that stand behind the offset of a transition, none for the offset 0.
unfoldable pub actions_at : List ℕ → ℕ → List ℕ
actions_at acts offset = take (get_or acts offset 0) (drop (offset + 1) acts)
