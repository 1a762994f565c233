-- ===== src/Connection/Agreement.antt =====
-- The tables of src/hub/connection.c against the chart of src/hub/connection.rl.
use utu.Prelude.{◌≡◌, ◌≢◌, refl}
use utu.Connection.Events.{HubEvent, code}
use utu.Connection.States.{State}
use utu.Connection.Tables.{next}
use utu.Connection.Chart.{chart}

-- In every state but the error state, which the driver leaves before it reads the tables, the
-- tables give each event the target and the actions, in order, that the chart gives it.
pub next-eq-chart : (s : State) (e : HubEvent) → s ≢ State.error → next s (code e) ≡ chart s e
unfolding next chart
next-eq-chart State.error e h = absurd (h refl)
next-eq-chart State.start HubEvent.open_ev h = refl
next-eq-chart _ HubEvent.open_ev h = refl
next-eq-chart _ _ h = refl
