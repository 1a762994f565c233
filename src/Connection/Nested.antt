-- ===== src/Connection/Nested.antt =====
-- The calls of the machine from inside an action, worked out: but for the task that opening runs,
-- they never go deeper than one level.
use utu.Prelude.{
  ℕ, suc, ◌≡◌, ◌≢◌, refl, true, false, none, some, List, ◌∷◌, if◌then◌else◌, is_some, arith,
}
use utu.Connection.Events.{HubEvent, pass_ev, write_close}
use utu.Connection.States.{State}
use utu.Connection.World.{World, Env, Visit, failed, active, finished, Call}
use utu.Connection.Chart.{chart}
use utu.Connection.Agreement.{next-eq-chart}
use utu.Connection.Exec.{
  head_is, log, done, invariant, rest_close, half_close, perform, run_actions, fire, incoming, exec,
}

ne_error_of_not_done : (s : State) → done s ≡ false → s ≢ State.error
unfolding done
ne_error_of_not_done s h q = ground arith

-- On a state that is not done, one event is one transition of the chart.
pub exec-fire :
    (d : ℕ) (visit : Visit) (env : Env) (e : HubEvent) (w : World) (s : State)
    → w.cs ≡ s
    → done s ≡ false
    → exec (suc d) visit env e w
      ≡ fire env (exec d visit env) (incoming (exec d visit) visit) (chart s e) w
unfolding exec
exec-fire d visit env e w s p h = rw (p, h, next-eq-chart s e (ne_error_of_not_done s h))

-- A done connection takes no event: the answer is -1, and nothing changes.
pub exec-done :
    (d : ℕ) (visit : Visit) (env : Env) (e : HubEvent) (w : World)
    → done w.cs ≡ true
    → exec (suc d) visit env e w ≡ some (w, failed)
unfolding exec
exec-done d visit env e w h = rw h

-- What registering does in the nested `UEv_PASS` of the handshake.
abbrev pub registered : Env → World → World
registered env w = record (log Call.member_login w) {
  cs = if is_some env.logged_in then State.registering else State.aborting;
  member = env.logged_in;
}

pub exec-pass_tuning :
    (d : ℕ) (visit : Visit) (env : Env) (w : World)
    → w.cs ≡ State.tuning
    → w.peer ≡ true
    → exec (suc d) visit env pass_ev w ≡ some (registered env w, active)
unfolding fire run_actions perform invariant chart
exec-pass_tuning d visit env w p h =
    rw (exec-fire d visit env pass_ev w State.tuning p (unfold done in refl)) (ground arith)

-- A connection at the head of the closed list is not put there again.
abbrev pub closing_list : World → List ℕ
closing_list w = if head_is w.id w.closed then w.closed else w.id ∷ w.closed

pub rest_close_lem :
    (w : World) → w.client ≡ false → rest_close w ≡ some (record w { closed = closing_list w })
unfolding rest_close
rest_close_lem w h = ground arith

pub exec-write_close_closing :
    (d : ℕ) (visit : Visit) (env : Env) (w : World)
    → w.cs ≡ State.closing
    → w.client ≡ false
    → exec (suc d) visit env write_close w
      ≡ some (record w { cs = State.final; closed = closing_list w }, finished)
unfolding fire run_actions perform invariant chart
exec-write_close_closing d visit env w p h =
    rw (exec-fire d visit env write_close w State.closing p (unfold done in refl)) (ground arith)

-- Where the outgoing task waits, its write close finishes a closing connection, and finds one in
-- the error state done.
abbrev pub woken : Env → World → World
woken env w =
    if env.outgoing_waits
    then elim w.cs [
      | State.closing ↦ record w { cs = State.final; closed = closing_list w }
      | _ ↦ w
    ]
    else w

-- `ConnectionState_half_close` on a connection that is open.
abbrev pub half_closed : Env → World → World
half_closed env w =
    let v = record (log Call.destroy_client w) { client = false } in
    elim w.member [
      | none ↦ v
      | some m ↦ record (woken env (log (Call.member_logout m) (log (Call.unregister_all m) v))) {
        member = none;
      }
    ]

pub half_close-closing :
    (d : ℕ) (visit : Visit) (env : Env) (w : World)
    → w.cs ≡ State.closing
    → w.client ≡ true
    → half_close env (exec (suc d) visit env) w ≡ some (half_closed env w)
unfolding half_close
half_close-closing d visit env w p h =
    elim w.member
      as (λ m.
        half_close env (exec (suc d) visit env) (record w { member = m })
        ≡ some (half_closed env (record w { member = m }))) [
          | none ↦ ground arith
          | some m ↦ ground (
            arith,
            exec-write_close_closing d visit env (
                log (Call.member_logout m) (
                  log (Call.unregister_all m)
                    (record (log Call.destroy_client w) { client = false; member = some m }))),
          )
        ]

-- In the error state the woken task finds the connection done.
pub half_close-error :
    (d : ℕ) (visit : Visit) (env : Env) (w : World)
    → w.cs ≡ State.error
    → w.client ≡ true
    → half_close env (exec (suc d) visit env) w ≡ some (half_closed env w)
unfolding half_close done
half_close-error d visit env w p h =
    elim w.member
      as (λ m.
        half_close env (exec (suc d) visit env) (record w { member = m })
        ≡ some (half_closed env (record w { member = m }))) [
          | none ↦ ground arith
          | some m ↦ ground (
            arith,
            exec-done d visit env write_close (
                log (Call.member_logout m) (
                  log (Call.unregister_all m)
                    (record (log Call.destroy_client w) { client = false; member = some m }))),
          )
        ]
