-- ===== src/Hub/Tables.antt =====
-- The tables of src/hub/hub.c, and the transition that its driver reads off them.
use utu.Prelude.{ℕ, List, [], ◌∷◌, map, get_or}
use utu.Ragel.{Tables, select, actions_at}
use utu.Hub.Chart.{State, Action, number, state_of, action_of}

abbrev actions : List ℕ
actions = 0 ∷ 1 ∷ 1 ∷ 1 ∷ 2 ∷ 1 ∷ 3 ∷ 1 ∷ 5 ∷ 1 ∷ 6 ∷ 1 ∷ 7 ∷ 2 ∷ 0 ∷ 4 ∷ 2 ∷ 0 ∷ 5 ∷ []

abbrev key_offsets : List ℕ
key_offsets = 0 ∷ 0 ∷ 2 ∷ 4 ∷ 7 ∷ 8 ∷ []

abbrev trans_keys : List ℕ
trans_keys = 70 ∷ 75 ∷ 68 ∷ 76 ∷ 67 ∷ 68 ∷ 79 ∷ 107 ∷ 0 ∷ []

abbrev single_lengths : List ℕ
single_lengths = 0 ∷ 2 ∷ 2 ∷ 3 ∷ 1 ∷ 0 ∷ []

abbrev range_lengths : List ℕ
range_lengths = 0 ∷ 0 ∷ 0 ∷ 0 ∷ 0 ∷ 0 ∷ []

abbrev index_offsets : List ℕ
index_offsets = 0 ∷ 0 ∷ 3 ∷ 6 ∷ 10 ∷ 12 ∷ []

abbrev trans_targs_wi : List ℕ
trans_targs_wi = 2 ∷ 4 ∷ 0 ∷ 5 ∷ 3 ∷ 0 ∷ 3 ∷ 5 ∷ 3 ∷ 0 ∷ 2 ∷ 0 ∷ 0 ∷ 0 ∷ []

abbrev trans_actions_wi : List ℕ
trans_actions_wi = 16 ∷ 13 ∷ 3 ∷ 1 ∷ 5 ∷ 3 ∷ 9 ∷ 1 ∷ 11 ∷ 3 ∷ 7 ∷ 3 ∷ 0 ∷ 0 ∷ []

abbrev tables : Tables
tables = record {
  key_offsets = key_offsets;
  trans_keys = trans_keys;
  single_lengths = single_lengths;
  range_lengths = range_lengths;
  index_offsets = index_offsets;
}

-- From `_resume` to the `switch`: the next state, and the actions to run, in order.
unfoldable pub next : State → ℕ → State × List Action
unfolding select actions_at
next s c =
    let trans = select tables (number s) c in
    (
      state_of (get_or trans_targs_wi trans 0),
      map action_of (actions_at actions (get_or trans_actions_wi trans 0)),
    )
