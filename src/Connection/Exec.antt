-- ===== src/Connection/Exec.antt =====
-- The actions of the connection machine, `ConnectionState_exec`, and the task that it runs on opening.
use utu.Prelude.{
  ℕ, zero, suc, ◌+◌, ◌%◌, ◌^◌, Bool, true, false, not, Option, none, some, List, [], ◌∷◌, ◌==◌,
  if◌then◌else◌, ◌>>=◌, ◌>>◌, require, is_some,
}
use utu.Connection.Events.{
  HubEvent, code, key_present, pass_ev, msg_recv, svc_recv, read_close, write_close,
}
use utu.Connection.States.{State, Action}
use utu.Connection.World.{
  World, Env, unconfirmed, confirmed, Status, failed, active, finished, Call, Happening, own_event,
  other_closed, other_reused, Read, Visit,
}
use utu.Connection.Tables.{next}

-- A call of the machine from inside an action.
abbrev pub Nested : Type 0
Nested = HubEvent → World → Option (World × Status)

abbrev pub log : Call → World → World
log c w = record w { calls = c ∷ w.calls }

-- `{state->cs = 11; goto _again;}`: the state after an action, and whether it left for `_again`.
abbrev pub abort : World → Option (World × Bool)
abort w = some (record w { cs = State.aborting }, true)

abbrev pub go_on : World → Option (World × Bool)
go_on w = some (w, false)

-- `ConnectionState_done`
unfoldable pub done : State → Bool
done State.error = true
done State.final = true
done _ = false

-- `ConnectionState_invariant`
unfoldable pub invariant : State → Status
invariant State.error = failed
invariant State.final = finished
invariant _ = active

-- `Member_logout` wakes the outgoing task and yields: its loop ends and it sends the write close.
unfoldable pub logout : Env → Nested → ℕ → World → Option World
logout env nested m w =
    let w' = log (Call.member_logout m) w in
    if env.outgoing_waits then (nested write_close w' >>= λ (u, _). some u) else some w'

-- `ConnectionState_half_close`
unfoldable pub half_close : Env → Nested → World → Option World
unfolding logout
half_close env nested w =
    if w.client
    then (elim w.member [
      | none ↦ some (record (log Call.destroy_client w) { client = false })
      | some m ↦
          logout env nested m
            (log (Call.unregister_all m) (record (log Call.destroy_client w) { client = false }))
          >>= λ u. some (record u { member = none })
    ])
    else some w

abbrev pub head_is : ℕ → List ℕ → Bool
head_is i [] = false
head_is i (j ∷ l) = i == j

-- `ConnectionState_rest_close`
unfoldable pub rest_close : World → Option World
rest_close w = do
  require (not w.client)
  some (if head_is w.id w.closed then w else record w { closed = w.id ∷ w.closed })

-- Action `tune`: `Peer_establish_receiver`, which confirms the key by a nested `UEv_PASS`.
unfoldable pub tune : Env → Nested → World → Option (World × Bool)
tune env nested w = elim env.handshake [
  | unconfirmed ↦ abort w
  | confirmed rc ↦ do
    (u, status) ← nested pass_ev w
    if rc (elim status [ active ↦ true | _ ↦ false ]) then go_on u else abort u
]

-- Action `recv`: `Message_decons` on what was read.
unfoldable pub recv : Env → World → Option (World × Bool)
recv env w =
    if w.recv_hdr
    then if w.recv_body
      then elim env.decons [
        | none ↦ abort (record (log Call.message_decons w) { recv_msg = none })
        | some n ↦ go_on (record (log Call.message_decons w) {
          recv_msg = some (record { msgid = n; from = w.member });
        })
      ]
      else abort w
    else abort w

-- Action `msgid_check`; `recv_count` is a `uint64_t`.
unfoldable pub msgid_check : World → Option (World × Bool)
msgid_check w = elim w.recv_msg [
  | none ↦ none
  | some m ↦
      if m.msgid == w.recv_count
      then go_on (record w { recv_count = (w.recv_count + 1) % 2 ^ 64 })
      else abort (log (Call.ref_inc m.msgid) w)
]

-- Action `service`: `Hub_service_message`, which keeps the message when it fails.
unfoldable pub service : Env → World → Option (World × Bool)
service env w = elim w.recv_msg [
  | none ↦ none
  | some m ↦
      let w' = log (Call.service_message m.msgid m.from) w in
      if env.serviced then go_on w' else abort (log (Call.ref_inc m.msgid) w')
]

-- What the action `open` runs.
abbrev pub Opened : Type 0
Opened = World → Option World

-- The machine with the answers that it gets.
abbrev pub Machine : Type 0
Machine = Env → Nested

-- An event, and what it returns dropped.
abbrev pub sends : Machine → Env → HubEvent → World → Option World
sends machine env e w = machine env e w >>= λ (u, _). some u

abbrev pub take_head : ℕ → List ℕ → List ℕ
take_head i [] = []
take_head i (j ∷ l) = if i == j then j ∷ l else l

-- `none` if the process stops.
unfoldable pub happen : Machine → Happening → World → Option World
happen machine (own_event env e) w = sends machine env e w
happen machine (other_closed j) w =
    some (record w { closed = if w.id == j then w.closed else j ∷ w.closed })
happen machine other_reused w = some (record w { closed = take_head w.id w.closed })

unfoldable pub happen_all : Machine → List Happening → World → Option World
unfolding happen
happen_all machine [] w = some w
happen_all machine (h ∷ rest) w = happen machine h w >>= happen_all machine rest

-- `ConnectionState_read_msg`, with what happens while it waits: whether a body was read. It follows
-- `state->member` where the client is there and the connection is not done.
unfoldable pub read_msg : Machine → List Happening → Bool → Bool → World → Option (World × Bool)
unfolding happen_all done
read_msg machine waiting hdr body w =
    let got = happen_all machine waiting w >>= λ u.
    some (record u { recv_hdr = hdr; recv_body = body }, body) in
    let waits : Option (World × Bool) = elim w.member [ none ↦ none | some m ↦ got ] in
    if done w.cs then some (w, false) else (if w.client then waits else some (w, false))

-- The body of the loop of `ConnectionState_incoming`.
unfoldable pub take_msg : Machine → Read → World → Option World
unfolding happen_all
take_msg machine r w = do
  u ← happen_all machine r.locking w
  (v, status) ← machine r.received msg_recv u
  elim status [
    | active ↦ if is_some v.recv_msg then sends machine r.serviced svc_recv v else some v
    | _ ↦ some v
  ]

-- The loop of `ConnectionState_incoming`. `Peer_recv` gives null, without a header, where the
-- connection has closed.
unfoldable pub read_all : Machine → List Read → List Happening → World → Option World
unfolding read_msg take_msg
read_all machine [] waiting w = read_msg machine waiting false false w >>= λ (u, _). some u
read_all machine (r ∷ reads) waiting w = read_msg machine r.waiting r.hdr r.body w >>= λ (u, more).
    let later = take_msg machine r u >>= read_all machine reads waiting in
    if more then later else some u

-- `ConnectionState_incoming`
unfoldable pub incoming : Machine → Visit → World → Option World
unfolding read_all
incoming machine visit w = do
  a ← sends machine visit.keyed key_present w
  b ← sends machine visit.passed pass_ev a
  c ← sends machine visit.passed_again pass_ev b
  d ← read_all machine visit.reads visit.waiting c
  sends machine visit.ended read_close d

-- The cases of the `switch`. A null pointer that is followed, and an assertion that fails, is `none`.
unfoldable pub perform : Env → Nested → Opened → Action → World → Option (World × Bool)
unfolding half_close rest_close tune recv msgid_check service
perform env nested opened Action.begin w = go_on (record w { recv_count = 1; send_count = 1 })
perform env nested opened Action.open_conn w = opened (log Call.incoming w) >>= go_on
perform env nested opened Action.key_prep w = do
  require w.client
  let w' = record (log Call.peer_create w) { peer = env.peer_created }
  if env.peer_created then go_on w' else abort w'
perform env nested opened Action.tune w = do
  require w.peer
  tune env nested (log Call.establish_receiver w)
perform env nested opened Action.register w = do
  require w.peer
  let w' = record (log Call.member_login w) { member = env.logged_in }
  if is_some env.logged_in then go_on w' else abort w'
perform env nested opened Action.established w = go_on (log Call.task_create w)
perform env nested opened Action.recv w = recv env w
perform env nested opened Action.clear_recv w =
    go_on (record w { recv_msg = none; recv_hdr = false; recv_body = false })
perform env nested opened Action.clear_send w = go_on (record w { send_msg = none })
perform env nested opened Action.service w = service env w
perform env nested opened Action.msgid_check w = msgid_check w
perform env nested opened Action.sent w = elim w.member [
  | none ↦ none
  | some m ↦ go_on (log (Call.delete_msg m) w)
]
perform env nested opened Action.failed w = do
  u ← half_close env nested w
  v ← rest_close u
  go_on v
perform env nested opened Action.half_close w = do u ← half_close env nested w; go_on u
perform env nested opened Action.rest_close w = do v ← rest_close w; go_on v
perform env nested opened _ w = go_on w

-- `while ( _nacts-- > 0 )`
unfoldable pub run_actions : Env → Nested → Opened → List Action → World → Option World
run_actions env nested opened [] w = some w
run_actions env nested opened (a ∷ acts) w = perform env nested opened a w >>= λ (u, left).
    let rest = run_actions env nested opened acts u in if left then some u else rest

-- The driver on one event: the state changes before the actions run.
unfoldable pub fire : Env → Nested → Opened → State × List Action → World → Option (World × Status)
fire env nested opened (target, acts) w =
    run_actions env nested opened acts (record w { cs = target }) >>= λ u. some (u, invariant u.cs)

-- `ConnectionState_exec` with what the action `open` runs.
abbrev pub exec_with : Env → Nested → Opened → HubEvent → World → Option (World × Status)
exec_with env nested opened e w =
    let step = fire env nested opened (next w.cs (code e)) w in
    if done w.cs then some (w, failed) else step

-- `ConnectionState_exec`. The first argument bounds the depth of calls from inside actions; the
-- second is what `ConnectionState_incoming` meets where the event opens the connection.
unfoldable pub exec : ℕ → Visit → Env → HubEvent → World → Option (World × Status)
unfolding fire incoming done
exec zero visit env e w = none
exec (suc depth) visit env e w =
    exec_with env (exec depth visit env) (incoming (exec depth visit) visit) e w
