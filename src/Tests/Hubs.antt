-- ===== src/Tests/Hubs.antt =====
-- The hub's own machine.
use utu.Prelude.{◌≡◌, refl, none, true, false, some, [], ◌∷◌, arith}
use utu.Connection.Events.{code, close_ev, key_file_load}
use utu.Stackish.Node.{node, number, nil}
use utu.Message.{Store}
use utu.Hub.Chart.{State, chart}
use utu.Hub.Tables.{next}
use utu.Hub.Machine.{Hub, Call, Env, invariant, exec, fire, run_actions, perform, destroy}
use utu.Hub.Life.{IsValid, Outcome, hub_next-eq-chart, exec-Outcome}

-- Connection 7 holds a message whose last reference it has.
abbrev working : Env
working = record {
  crypt = true;
  new_key = some 11;
  server_made = true;
  trees = record { hdr = λ p. some (node none (number 1) nil); body = λ p. none };
  held = λ c. record { recv_msg = some 3; recv_hdr = none; recv_body = none; send_msg = none };
}

abbrev one_each : Store
one_each p = some 1

abbrev listening : Hub
listening = record {
  cs = State.listening;
  key = some 11;
  server = true;
  closed = 7 ∷ [];
  counts = one_each;
  calls = [];
}

-- A hub that was made and is destroyed at once: the server goes, the strings are freed.
torn_down :
    destroy working (record {
      cs = State.crypto_ready;
      key = some 5;
      server = true;
      closed = [];
      counts = one_each;
      calls = Call.server_create ∷ [];
    })
    ≡ some (
      record {
        cs = State.final;
        key = some 5;
        server = true;
        closed = [];
        counts = one_each;
        calls =
            Call.route_destroy ∷ Call.server_destroy ∷ Call.destroy_strings ∷ Call.server_create
            ∷ [];
      },
      invariant State.final,
    )
unfolding destroy exec fire next run_actions perform
torn_down = refl

hub_next-eq-chart_example : next State.start (code key_file_load) ≡ chart State.start key_file_load
hub_next-eq-chart_example = hub_next-eq-chart State.start key_file_load (λ p. cc)

-- The connection that closed last is finished.
exec-Outcome_example :
    Outcome false (λ u s. IsValid u × (s ≡ invariant u.cs)) (exec working close_ev listening)
exec-Outcome_example = exec-Outcome working close_ev listening (ground arith)

-- A message that is gone when the connection is finished stops the hub.
gone : exec working close_ev (record listening { counts = λ p. none }) ≡ none
unfolding exec fire next run_actions perform utu.Hub.Finish.finish utu.Message.destroy
gone = refl
