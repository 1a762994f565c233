-- ===== src/Tests/Machines.antt =====
-- The connection machine and the hub machine.
use utu.Prelude.{Option, ◌>>=◌, ℕ, ◌≡◌, refl, true, false, none, some, List, [], ◌∷◌}
use utu.Connection.Events.{code, open_ev, svc_recv, read_close}
use utu.Connection.States.{State}
use utu.Connection.World.{
  World, Env, Call, Status, Visit, Happening, own_event, other_closed, confirmed,
}
use utu.Connection.Tables.{next}
use utu.Connection.Chart.{chart}
use utu.Connection.Agreement.{next-eq-chart}
use utu.Connection.Exec.{happen, incoming, done, invariant, exec, fire, run_actions, perform}
use utu.Connection.Valid.{IsValid, count}
use utu.Connection.Life.{fresh, run}
use utu.Connection.Outgoing.{Turn, deliver}
use utu.Connection.Abort.{deliver-aborting}

-- A client whose handshake succeeds and whose messages are served.
abbrev willing : ℕ → Env
willing n = record {
  peer_created = true;
  handshake = confirmed (λ b. b);
  logged_in = some 40;
  decons = some n;
  serviced = true;
  outgoing_waits = true;
}

-- A message with the number 1 arrives, another connection closes, and then the client is gone.
abbrev one_message : Visit
one_message = record {
  keyed = willing 1;
  passed = willing 1;
  passed_again = willing 1;
  reads =
      record {
        waiting = [];
        hdr = true;
        body = true;
        locking = other_closed 9 ∷ [];
        received = willing 1;
        serviced = willing 1;
      }
      ∷ [];
  waiting = [];
  ended = willing 1;
}

abbrev session : List Happening
session = own_event (willing 1) open_ev ∷ other_closed 8 ∷ own_event (willing 1) read_close ∷ []

session_ends :
    run one_message session (fresh 7 (3 ∷ []))
    ≡ some (record {
      id = 7;
      cs = State.final;
      recv_count = 2;
      send_count = 1;
      client = false;
      peer = true;
      member = none;
      recv_hdr = false;
      recv_body = false;
      recv_msg = none;
      send_msg = none;
      closed = 8 ∷ 7 ∷ 9 ∷ 3 ∷ [];
      calls =
          Call.member_logout 40
          ∷ Call.unregister_all 40
          ∷ Call.destroy_client
          ∷ Call.service_message 1 (some 40)
          ∷ Call.message_decons
          ∷ Call.task_create
          ∷ Call.member_login
          ∷ Call.establish_receiver
          ∷ Call.peer_create
          ∷ Call.incoming
          ∷ [];
    })
unfolding run happen fresh exec incoming fire run_actions next perform done invariant
session_ends = refl

-- A login that fails closes the connection before a message is read.
abbrev unwilling : Visit
unwilling = record one_message { passed = record (willing 1) { logged_in = none } }

refused_login : Option (World × Status) → Option (State × List Call)
refused_login o = o >>= λ (u, s). some (u.cs, u.calls)

login_fails :
    refused_login (exec 3 unwilling (willing 1) open_ev (fresh 7 []))
    ≡ some (
      State.final,
      Call.destroy_client ∷ Call.member_login ∷ Call.establish_receiver ∷ Call.peer_create
          ∷ Call.incoming ∷ [],
    )
unfolding refused_login happen fresh exec incoming fire run_actions next perform done invariant
login_fails = refl

-- A connection with a message read, at the point where it is checked and served.
abbrev delivering : World
delivering = record {
  id = 7;
  cs = State.delivering;
  recv_count = 1;
  send_count = 1;
  client = true;
  peer = true;
  member = some 40;
  recv_hdr = true;
  recv_body = true;
  recv_msg = some (record { msgid = 1; from = some 40 });
  send_msg = none;
  closed = [];
  calls = [];
}

next-eq-chart_example : next State.delivering (code svc_recv) ≡ chart State.delivering svc_recv
next-eq-chart_example = next-eq-chart State.delivering svc_recv (λ p. cc)

-- A message with the wrong number has led to the aborting state, and one more is queued.
abbrev aborting : World
aborting = record delivering { cs = State.aborting; send_msg = some 5 }

abbrev queued_turn : Turn
queued_turn = record {
  first_msg = some 5;
  visit = one_message;
  queued = record (willing 1) { outgoing_waits = false };
  sent = true;
  ended = willing 1;
}

aborting-IsValid : IsValid 7 aborting
unfolding done count
aborting-IsValid = record {
  same = refl;
  client_open = refl;
  peer_set = tt;
  member_set = tt;
  member_cleared = refl;
  message_set = tt;
  closed_once = refl;
  sender_is_member = tt;
  counted = refl;
}

deliver-aborting_example : deliver queued_turn aborting ≡ none
deliver-aborting_example = deliver-aborting queued_turn 7 aborting aborting-IsValid refl refl
