-- ===== src/Connection/States.antt =====
-- The states and actions of the connection machine, and the numbers that the tables give them.
use utu.Prelude.{ℕ, List, [], ◌∷◌, get_or}

-- `ConnectionState.cs`: the states of the chart in src/hub/connection.rl.
pub data State : Type 0 where
  error start accepting key_check tuning registering idle hated awaiting validating : State
  sending aborting closing delivering final : State

abbrev pub number : State → ℕ
number error = 0
number start = 1
number accepting = 2
number key_check = 3
number tuning = 4
number registering = 5
number idle = 6
number hated = 7
number awaiting = 8
number validating = 9
number sending = 10
number aborting = 11
number closing = 12
number delivering = 13
number final = 14

abbrev pub all_states : List State
all_states =
    error ∷ start ∷ accepting ∷ key_check ∷ tuning ∷ registering ∷ idle ∷ hated ∷ awaiting
    ∷ validating ∷ sending ∷ aborting ∷ closing ∷ delivering ∷ final ∷ []

abbrev pub state_of : ℕ → State
state_of n = get_or all_states n error

-- The cases of the `switch`, in order.
pub data Action : Type 0 where
  begin open_conn key_prep tune register established recv clear_recv clear_send service : Action
  msg_ready msgid_check aborted sent hate_apply hate_challenge hate_paid hate_valid : Action
  hate_invalid failed half_close rest_close : Action

abbrev pub all_actions : List Action
all_actions =
    begin ∷ open_conn ∷ key_prep ∷ tune ∷ register ∷ established ∷ recv ∷ clear_recv ∷ clear_send
    ∷ service ∷ msg_ready ∷ msgid_check ∷ aborted ∷ sent ∷ hate_apply ∷ hate_challenge ∷ hate_paid
    ∷ hate_valid ∷ hate_invalid ∷ failed ∷ half_close ∷ rest_close ∷ []

abbrev pub action_of : ℕ → Action
action_of n = get_or all_actions n begin
