-- ===== src/Connection/Abort.antt =====
-- The task that sends messages, on a connection that is to be aborted.
use utu.Prelude.{ℕ, ◌≡◌, refl, ◌∙◌, ap, false, none, some, arith}
use utu.Connection.Events.{msg_queued}
use utu.Connection.States.{State}
use utu.Connection.World.{World, Env, Visit}
use utu.Connection.Exec.{done, invariant, fire, run_actions, perform, exec}
use utu.Connection.Chart.{chart}
use utu.Connection.Nested.{exec-fire, half_close-closing, half_closed}
use utu.Connection.Valid.{IsValid, open_in}
use utu.Connection.Outgoing.{Turn, deliver}

-- With the sending task itself running, half closing leaves the connection closing.
abbrev aborted : Env → World → World
aborted env w = half_closed env (record w { cs = State.closing })

exec-aborting :
    (visit : Visit) (env : Env) (id : ℕ) (w : World)
    → IsValid id w
    → w.cs ≡ State.aborting
    → exec 2 visit env msg_queued w ≡ some (aborted env w, invariant (aborted env w).cs)
unfolding fire run_actions perform done chart
exec-aborting visit env id w v p =
    exec-fire 1 visit env msg_queued w State.aborting p refl
    ∙ rw (
        half_close-closing 0 visit env (record w { cs = State.closing }) refl
          (v.client_open ∙ ap open_in p))

no_member :
    (env : Env) (w : World)
    → env.outgoing_waits ≡ false
    → ((aborted env w).member ≡ none) × ((aborted env w).cs ≡ State.closing)
no_member env w h = ground arith

-- A message that is queued for a member whose connection is about to be aborted stops the hub: the
-- event half closes the connection, which clears its member, and answers 0, so that the message is
-- sent through the member's null pointer. The sending task is the one that runs, so that it does
-- not wait on the queue.
pub deliver-aborting :
    (t : Turn) (id : ℕ) (w : World)
    → IsValid id w
    → w.cs ≡ State.aborting
    → t.queued.outgoing_waits ≡ false
    → deliver t w ≡ none
unfolding deliver done invariant
deliver-aborting t id w v p h =
    rw (exec-aborting t.visit t.queued id w v p) (ground (arith, no_member t.queued w h))
