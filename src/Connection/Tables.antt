-- ===== src/Connection/Tables.antt =====
-- The tables of src/hub/connection.c, and the transition that its driver reads off them.
use utu.Prelude.{ℕ, List, [], ◌∷◌, map, get_or}
use utu.Ragel.{Tables, select, actions_at}
use utu.Connection.States.{State, Action, number, state_of, action_of}

abbrev actions : List ℕ
actions =
    0 ∷ 1 ∷ 2 ∷ 1 ∷ 3 ∷ 1 ∷ 4 ∷ 1 ∷ 5 ∷ 1 ∷ 6 ∷ 1 ∷ 8 ∷ 1 ∷ 10 ∷ 1 ∷ 14 ∷ 1 ∷ 15 ∷ 1 ∷ 16 ∷ 1 ∷ 17
    ∷ 1 ∷ 18 ∷ 1 ∷ 19 ∷ 1 ∷ 20 ∷ 1 ∷ 21 ∷ 2 ∷ 0 ∷ 1 ∷ 2 ∷ 12 ∷ 20 ∷ 2 ∷ 13 ∷ 8 ∷ 3 ∷ 11 ∷ 9 ∷ 7 ∷ []

abbrev key_offsets : List ℕ
key_offsets = 0 ∷ 0 ∷ 1 ∷ 4 ∷ 7 ∷ 10 ∷ 13 ∷ 18 ∷ 19 ∷ 20 ∷ 22 ∷ 24 ∷ 24 ∷ 26 ∷ 27 ∷ []

abbrev trans_keys : List ℕ
trans_keys =
    79 ∷ 80 ∷ 114 ∷ 119 ∷ 49 ∷ 114 ∷ 119 ∷ 49 ∷ 114 ∷ 119 ∷ 49 ∷ 114 ∷ 119 ∷ 72 ∷ 81 ∷ 82 ∷ 114
    ∷ 119 ∷ 104 ∷ 98 ∷ 86 ∷ 118 ∷ 48 ∷ 101 ∷ 114 ∷ 119 ∷ 115 ∷ 0 ∷ []

abbrev single_lengths : List ℕ
single_lengths = 0 ∷ 1 ∷ 3 ∷ 3 ∷ 3 ∷ 3 ∷ 5 ∷ 1 ∷ 1 ∷ 2 ∷ 2 ∷ 0 ∷ 2 ∷ 1 ∷ 0 ∷ []

abbrev range_lengths : List ℕ
range_lengths = 0 ∷ 0 ∷ 0 ∷ 0 ∷ 0 ∷ 0 ∷ 0 ∷ 0 ∷ 0 ∷ 0 ∷ 0 ∷ 0 ∷ 0 ∷ 0 ∷ 0 ∷ []

abbrev index_offsets : List ℕ
index_offsets = 0 ∷ 0 ∷ 2 ∷ 6 ∷ 10 ∷ 14 ∷ 18 ∷ 24 ∷ 26 ∷ 28 ∷ 31 ∷ 34 ∷ 35 ∷ 38 ∷ 40 ∷ []

abbrev indicies : List ℕ
indicies =
    1 ∷ 0 ∷ 2 ∷ 3 ∷ 3 ∷ 0 ∷ 4 ∷ 3 ∷ 3 ∷ 0 ∷ 5 ∷ 3 ∷ 3 ∷ 0 ∷ 6 ∷ 3 ∷ 3 ∷ 0 ∷ 7 ∷ 8 ∷ 9 ∷ 3 ∷ 3 ∷ 0
    ∷ 10 ∷ 0 ∷ 11 ∷ 0 ∷ 12 ∷ 13 ∷ 0 ∷ 14 ∷ 15 ∷ 0 ∷ 16 ∷ 17 ∷ 17 ∷ 0 ∷ 18 ∷ 0 ∷ 0 ∷ 0 ∷ []

abbrev trans_targs_wi : List ℕ
trans_targs_wi =
    0 ∷ 2 ∷ 3 ∷ 12 ∷ 4 ∷ 5 ∷ 6 ∷ 7 ∷ 10 ∷ 13 ∷ 8 ∷ 9 ∷ 6 ∷ 6 ∷ 11 ∷ 6 ∷ 12 ∷ 14 ∷ 6 ∷ []

abbrev trans_actions_wi : List ℕ
trans_actions_wi =
    25 ∷ 31 ∷ 1 ∷ 27 ∷ 3 ∷ 5 ∷ 7 ∷ 15 ∷ 13 ∷ 9 ∷ 17 ∷ 19 ∷ 21 ∷ 23 ∷ 11 ∷ 37 ∷ 34 ∷ 29 ∷ 40 ∷ []

abbrev tables : Tables
tables = record {
  key_offsets = key_offsets;
  trans_keys = trans_keys;
  single_lengths = single_lengths;
  range_lengths = range_lengths;
  index_offsets = index_offsets;
}

-- The number of the transition, through `_ConnectionState_indicies`.
unfoldable pub transition : State → ℕ → ℕ
unfolding select
transition s c = get_or indicies (select tables (number s) c) 0

-- From `_resume` to the `switch`: the next state, and the actions to run, in order.
unfoldable pub next : State → ℕ → State × List Action
unfolding transition actions_at
next s c =
    let trans = transition s c in
    (
      state_of (get_or trans_targs_wi trans 0),
      map action_of (actions_at actions (get_or trans_actions_wi trans 0)),
    )
