-- ===== src/Connection/Safe.antt =====
-- Every event keeps a connection valid, the one that opens it with all that its task then does
-- (`ConnectionState_incoming` of src/hub/connection_state.c).
use utu.Prelude.{ℕ, suc, ◌≡◌, ◌⊎◌, Bool, Option, none, some, List}
use utu.Connection.Events.{HubEvent}
use utu.Connection.States.{State}
use utu.Connection.World.{World, Env, Visit, Status, Call}
use utu.Connection.Exec.{log, incoming, exec}
use utu.Connection.Steps.{fired}
use utu.Connection.Reading.{Reads}

-- A read goes through, and the connection is as `P` says after it.
abbrev Got : (World → Type 0) → Option (World × Bool) → Type 0
Got P none = ⊥
Got P (some (u, more)) = P u

module _ (d : ℕ) (visit : Visit) (id : ℕ) where
  abbrev machine : Env → HubEvent → World → Option (World × Status)
  machine = exec (suc (suc d)) visit

  abbrev opening : World → Option World
  opening = incoming (exec (suc d) visit) visit

  -- What the first event leads to, and what the second does.
  abbrev Keyed : World → Type 0
  Keyed u = (u.cs ≡ State.key_check) ⊎ (u.cs ≡ State.aborting)

  abbrev Passed : World → Type 0
  Passed u = (u.cs ≡ State.aborting) ⊎ Reads u

  abbrev first : State × List utu.Connection.States.Action → Env → World → Option (World × Status)
  first move env w = fired d visit env id opening move w

-- Opening: the state that is set up, and the task that it then runs.
abbrev opened : World → World
opened w = log Call.incoming (record w { cs = State.accepting; recv_count = 1; send_count = 1 })
