-- ===== src/Hub/Chart.antt =====
-- The states and actions of the hub's machine, with the numbers that the tables give them, and the
-- chart of src/hub/hub.rl, read independently of the tables.
use utu.Prelude.{ℕ, List, [], ◌∷◌, get_or}
use utu.Connection.Events.{HubEvent}

pub data State : Type 0 where
  error start crypto_ready listening gen_keys final : State

abbrev pub number : State → ℕ
number error = 0
number start = 1
number crypto_ready = 2
number listening = 3
number gen_keys = 4
number final = 5

abbrev pub state_of : ℕ → State
state_of n = get_or (error ∷ start ∷ crypto_ready ∷ listening ∷ gen_keys ∷ final ∷ []) n error

-- The cases of the `switch`, in order.
pub data Action : Type 0 where
  begin cleanup failed listen gen_key keys_ready close open_conn : Action

abbrev pub action_of : ℕ → Action
action_of n =
    get_or (begin ∷ cleanup ∷ failed ∷ listen ∷ gen_key ∷ keys_ready ∷ close ∷ open_conn ∷ []) n
      begin

-- The chart: the state that an event leads to, with the actions in order. The final state takes no
-- event and runs no action.
unfoldable pub chart : State → HubEvent → State × List Action
chart start HubEvent.gen_key = (gen_keys, begin ∷ gen_key ∷ [])
chart start HubEvent.key_file_load = (crypto_ready, begin ∷ keys_ready ∷ [])
chart gen_keys HubEvent.gen_key_done = (crypto_ready, keys_ready ∷ [])
chart crypto_ready HubEvent.listen_ev = (listening, listen ∷ [])
chart crypto_ready HubEvent.done_ev = (final, cleanup ∷ [])
chart listening HubEvent.open_ev = (listening, open_conn ∷ [])
chart listening HubEvent.close_ev = (listening, close ∷ [])
chart listening HubEvent.done_ev = (final, cleanup ∷ [])
chart final e = (error, [])
chart _ _ = (error, failed ∷ [])
