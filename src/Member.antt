-- ===== src/Member.antt =====
-- Messages to members: `Member_send_msg` of src/hub/member.c and `Hub_broadcast` of
-- src/hub/hub_state.c. Of a member only its queue counts here.
pub mod Broadcast
use utu.Prelude.{ℕ, Bool, true, false, Option, none, some, List, [], ◌∷◌, if◌then◌else◌, ◌>>=◌}
use utu.Message.{Store}
use utu.Queue.{MsgQueue, Outcome, is_full, add}

-- `Member_send_msg`, with the wake-up of the tasks that wait left out: no message to a full queue.
unfoldable pub send_msg : MsgQueue → ℕ → Store → Outcome
unfolding is_full add
send_msg q p st = if is_full q then some (q, st, false) else add q p st

-- `Hub_broadcast` over the queues of the members, in the order of the iterator; what
-- `Member_send_msg` returns is dropped.
unfoldable pub broadcast : List MsgQueue → ℕ → Store → Option (List MsgQueue × Store)
unfolding send_msg
broadcast [] p st = some ([], st)
broadcast (q ∷ qs) p st = send_msg q p st >>= λ (q', st', sent).
    broadcast qs p st' >>= λ (qs', st''). some (q' ∷ qs', st'')
