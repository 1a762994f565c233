-- ===== src/Stackish/Tables.antt =====
-- The tables of src/stackish/stackish.c, and the transition that its driver reads off them.
use utu.Prelude.{ℕ, List, [], ◌∷◌, map, get_or}
use utu.Ragel.{Tables, select, actions_at}

abbrev actions : List ℕ
actions =
    0 ∷ 1 ∷ 0 ∷ 1 ∷ 1 ∷ 1 ∷ 2 ∷ 1 ∷ 3 ∷ 1 ∷ 4 ∷ 1 ∷ 5 ∷ 1 ∷ 6 ∷ 1 ∷ 7 ∷ 1 ∷ 8 ∷ 1 ∷ 9 ∷ 2 ∷ 0 ∷ 3
    ∷ 2 ∷ 1 ∷ 0 ∷ 2 ∷ 1 ∷ 4 ∷ 2 ∷ 1 ∷ 7 ∷ 2 ∷ 2 ∷ 0 ∷ 2 ∷ 2 ∷ 4 ∷ 2 ∷ 2 ∷ 7 ∷ 2 ∷ 6 ∷ 0 ∷ 2 ∷ 6 ∷ 4
    ∷ 2 ∷ 6 ∷ 7 ∷ 2 ∷ 9 ∷ 0 ∷ 2 ∷ 9 ∷ 4 ∷ 2 ∷ 9 ∷ 7 ∷ []

abbrev key_offsets : List ℕ
key_offsets = 0 ∷ 0 ∷ 1 ∷ 2 ∷ 4 ∷ 7 ∷ 8 ∷ 10 ∷ 13 ∷ 15 ∷ 19 ∷ 35 ∷ 51 ∷ 69 ∷ 87 ∷ []

abbrev trans_keys : List ℕ
trans_keys =
    34 ∷ 34 ∷ 48 ∷ 57 ∷ 58 ∷ 48 ∷ 57 ∷ 39 ∷ 48 ∷ 57 ∷ 46 ∷ 48 ∷ 57 ∷ 48 ∷ 57 ∷ 65 ∷ 90 ∷ 97 ∷ 122
    ∷ 32 ∷ 34 ∷ 39 ∷ 43 ∷ 45 ∷ 64 ∷ 91 ∷ 93 ∷ 9 ∷ 13 ∷ 48 ∷ 57 ∷ 65 ∷ 90 ∷ 97 ∷ 122 ∷ 32 ∷ 34 ∷ 39
    ∷ 43 ∷ 45 ∷ 64 ∷ 91 ∷ 93 ∷ 9 ∷ 13 ∷ 48 ∷ 57 ∷ 65 ∷ 90 ∷ 97 ∷ 122 ∷ 32 ∷ 34 ∷ 39 ∷ 43 ∷ 64 ∷ 91
    ∷ 93 ∷ 95 ∷ 9 ∷ 13 ∷ 45 ∷ 46 ∷ 48 ∷ 58 ∷ 65 ∷ 90 ∷ 97 ∷ 122 ∷ 32 ∷ 34 ∷ 39 ∷ 43 ∷ 64 ∷ 91 ∷ 93
    ∷ 95 ∷ 9 ∷ 13 ∷ 45 ∷ 46 ∷ 48 ∷ 58 ∷ 65 ∷ 90 ∷ 97 ∷ 122 ∷ 32 ∷ 34 ∷ 39 ∷ 43 ∷ 45 ∷ 46 ∷ 64 ∷ 91
    ∷ 93 ∷ 9 ∷ 13 ∷ 48 ∷ 57 ∷ 65 ∷ 90 ∷ 97 ∷ 122 ∷ 0 ∷ []

abbrev single_lengths : List ℕ
single_lengths = 0 ∷ 1 ∷ 1 ∷ 0 ∷ 1 ∷ 1 ∷ 0 ∷ 1 ∷ 0 ∷ 0 ∷ 8 ∷ 8 ∷ 8 ∷ 8 ∷ 9 ∷ []

abbrev range_lengths : List ℕ
range_lengths = 0 ∷ 0 ∷ 0 ∷ 1 ∷ 1 ∷ 0 ∷ 1 ∷ 1 ∷ 1 ∷ 2 ∷ 4 ∷ 4 ∷ 5 ∷ 5 ∷ 4 ∷ []

abbrev index_offsets : List ℕ
index_offsets = 0 ∷ 0 ∷ 2 ∷ 4 ∷ 6 ∷ 9 ∷ 11 ∷ 13 ∷ 16 ∷ 18 ∷ 21 ∷ 34 ∷ 47 ∷ 61 ∷ 75 ∷ []

abbrev trans_targs_wi : List ℕ
trans_targs_wi =
    10 ∷ 2 ∷ 10 ∷ 2 ∷ 4 ∷ 0 ∷ 5 ∷ 4 ∷ 0 ∷ 10 ∷ 0 ∷ 7 ∷ 0 ∷ 8 ∷ 7 ∷ 0 ∷ 11 ∷ 0 ∷ 12 ∷ 12 ∷ 0 ∷ 10 ∷ 1
    ∷ 3 ∷ 6 ∷ 6 ∷ 9 ∷ 10 ∷ 10 ∷ 10 ∷ 14 ∷ 13 ∷ 13 ∷ 0 ∷ 10 ∷ 1 ∷ 3 ∷ 6 ∷ 6 ∷ 9 ∷ 10 ∷ 10 ∷ 10 ∷ 11
    ∷ 13 ∷ 13 ∷ 0 ∷ 10 ∷ 1 ∷ 3 ∷ 6 ∷ 9 ∷ 10 ∷ 10 ∷ 12 ∷ 10 ∷ 12 ∷ 12 ∷ 12 ∷ 12 ∷ 0 ∷ 10 ∷ 1 ∷ 3 ∷ 6
    ∷ 9 ∷ 10 ∷ 10 ∷ 13 ∷ 10 ∷ 13 ∷ 13 ∷ 13 ∷ 13 ∷ 0 ∷ 10 ∷ 1 ∷ 3 ∷ 6 ∷ 6 ∷ 8 ∷ 9 ∷ 10 ∷ 10 ∷ 10 ∷ 14
    ∷ 13 ∷ 13 ∷ 0 ∷ 0 ∷ []

abbrev trans_actions_wi : List ℕ
trans_actions_wi =
    21 ∷ 1 ∷ 7 ∷ 0 ∷ 1 ∷ 0 ∷ 17 ∷ 0 ∷ 0 ∷ 11 ∷ 0 ∷ 0 ∷ 0 ∷ 0 ∷ 0 ∷ 0 ∷ 0 ∷ 0 ∷ 0 ∷ 0 ∷ 0 ∷ 0 ∷ 0 ∷ 0
    ∷ 1 ∷ 1 ∷ 1 ∷ 9 ∷ 15 ∷ 0 ∷ 1 ∷ 1 ∷ 1 ∷ 0 ∷ 5 ∷ 5 ∷ 5 ∷ 33 ∷ 33 ∷ 33 ∷ 36 ∷ 39 ∷ 5 ∷ 0 ∷ 33 ∷ 33
    ∷ 0 ∷ 19 ∷ 19 ∷ 19 ∷ 51 ∷ 51 ∷ 54 ∷ 57 ∷ 0 ∷ 19 ∷ 0 ∷ 0 ∷ 0 ∷ 0 ∷ 0 ∷ 13 ∷ 13 ∷ 13 ∷ 42 ∷ 42
    ∷ 45 ∷ 48 ∷ 0 ∷ 13 ∷ 0 ∷ 0 ∷ 0 ∷ 0 ∷ 0 ∷ 3 ∷ 3 ∷ 3 ∷ 24 ∷ 24 ∷ 0 ∷ 24 ∷ 27 ∷ 30 ∷ 3 ∷ 0 ∷ 24
    ∷ 24 ∷ 0 ∷ 0 ∷ []

abbrev tables : Tables
tables = record {
  key_offsets = key_offsets;
  trans_keys = trans_keys;
  single_lengths = single_lengths;
  range_lengths = range_lengths;
  index_offsets = index_offsets;
}

-- The cases of the `switch`, in order.
pub data Action : Type 0 where
  mark_here push_number push_float push_string open_group push_blob end_word end_group : Action
  blob_length set_attr : Action

abbrev pub action_of : ℕ → Action
action_of n =
    get_or
      (mark_here ∷ push_number ∷ push_float ∷ push_string ∷ open_group ∷ push_blob ∷ end_word
        ∷ end_group ∷ blob_length ∷ set_attr ∷ [])
      n mark_here

-- The state that the parser starts in, which is the only final one besides those inside a token.
abbrev pub parser_start : ℕ
parser_start = 10

abbrev pub parser_first_final : ℕ
parser_first_final = 10

abbrev pub parser_error : ℕ
parser_error = 0

-- From `_resume` to the `switch`: the next state, and the actions to run, in order.
unfoldable pub next : ℕ → ℕ → ℕ × List Action
unfolding select actions_at
next cs c =
    let trans = select tables cs c in
    (
      get_or trans_targs_wi trans 0,
      map action_of (actions_at actions (get_or trans_actions_wi trans 0)),
    )
