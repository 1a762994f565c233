-- ===== src/Connection/Outgoing.antt =====
-- The task that sends a member's messages (src/hub/connection_state.c), over the machine.
use utu.Prelude.{
  ℕ, ◌+◌, ◌%◌, ◌^◌, Bool, true, false, Option, none, some, List, [], ◌∷◌, ◌>>=◌, if◌then◌else◌,
  is_some,
}
use utu.Connection.Events.{msg_queued, msg_sent, fail_ev, write_close}
use utu.Connection.World.{World, Env, Visit, active}
use utu.Connection.Exec.{done, exec}

-- One turn of the loop: the first message of the queue, what a connection that opens meets (none
-- does in a turn), the answers during the two events, and
-- whether `Peer_send` succeeds.
pub record Turn : Type 0 where
  pub first_msg : Option ℕ
  pub visit : Visit
  pub queued : Env
  pub sent : Bool
  pub ended : Env

-- `ConnectionState_dequeue_msg`. `Member_first_msg` asserts that the member is there.
unfoldable pub dequeue_msg : Option ℕ → World → Option (World × Bool)
dequeue_msg first w = if done w.cs then some (w, false) else elim w.member [
  | none ↦ none
  | some m ↦ some (record w { send_msg = first }, is_some first)
]

-- `ConnectionState_send_msg`, which follows `state->member` and `state->send.msg` without a test.
unfoldable pub send_msg : Bool → World → Option (World × Bool)
send_msg sent w = if done w.cs then some (w, false) else elim w.member [
  | none ↦ none
  | some m ↦ elim w.send_msg [
    | none ↦ none
    | some msg ↦ some (record w { send_count = (w.send_count + 1) % 2 ^ 64 }, sent)
  ]
]

-- The loop's body, from `ConnectionState_exec(state, UEv_MSG_QUEUED)` on; `false` is its `break`.
unfoldable pub deliver : Turn → World → Option (World × Bool)
unfolding send_msg
deliver t w = do
  (u, status) ← exec 2 t.visit t.queued msg_queued w
  elim status [
    | active ↦ do
      (v, rc) ← send_msg t.sent u
      if rc
          then (exec 2 t.visit t.ended msg_sent v >>= λ (x, _). some (x, true))
          else (exec 2 t.visit t.ended fail_ev v >>= λ (x, _). some (x, false))
    | _ ↦ some (u, true)
  ]

-- `ConnectionState_outgoing`, on the turns that the queue and the peer allow.
unfoldable pub outgoing : Visit → Env → List Turn → World → Option World
unfolding dequeue_msg deliver
outgoing visit env [] w = exec 2 visit env write_close w >>= λ (u, _). some u
outgoing visit env (t ∷ turns) w = do
  (u, more) ← dequeue_msg t.first_msg w
  if more
      then (deliver t u >>= λ (v, again).
          let rest = outgoing visit env turns v in
          let stop = exec 2 visit env write_close v >>= λ (x, _). some x in
          if again then rest else stop)
      else (exec 2 visit env write_close u >>= λ (x, _). some x)
