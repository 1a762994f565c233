-- ===== src/Connection/Valid.antt =====
-- What holds of a connection between two events, and that every event keeps it: no null pointer is
-- followed, no assertion fails, and the connection is on the closed list once if and only if it is
-- done.
use utu.Prelude.{
  ℕ, suc, ◌+◌, ◌%◌, ◌^◌, ◌≡◌, ◌⊎◌, Bool, true, false, Option, none, some, List, [], ◌∷◌, ◌==◌,
  if◌then◌else◌, is_some,
}
use utu.Connection.States.{State}
use utu.Connection.World.{World, Received, Call}
use utu.Connection.Exec.{done}

-- The states in which the connection's client is open.
abbrev pub open_in : State → Bool
open_in State.closing = false
open_in State.final = false
open_in State.error = false
open_in _ = true

-- The states from the handshake on, in which the peer exists.
abbrev pub has_peer : State → Bool
has_peer State.error = false
has_peer State.start = false
has_peer State.accepting = false
has_peer State.aborting = false
has_peer State.closing = false
has_peer State.final = false
has_peer _ = true

-- The states in which the member is logged in.
abbrev pub has_member : State → Bool
has_member State.error = false
has_member State.start = false
has_member State.accepting = false
has_member State.key_check = false
has_member State.tuning = false
has_member State.aborting = false
has_member State.closing = false
has_member State.final = false
has_member _ = true

abbrev pub delivers : State → Bool
delivers State.delivering = true
delivers _ = false

unfoldable pub count : ℕ → List ℕ → ℕ
count i [] = 0
count i (j ∷ l) = if i == j then suc (count i l) else count i l

abbrev pub bit : Bool → ℕ
bit true = 1
bit false = 0

abbrev pub Implies : Bool → Bool → Type 0
Implies true b = b ≡ true
Implies false b = Unit {0}

-- The messages that were handed to `Hub_service_message`, newest first: number and sender.
abbrev pub served : List Call → List (ℕ × Option ℕ)
served [] = []
served (Call.service_message n m ∷ l) = (n, m) ∷ served l
served (_ ∷ l) = served l

-- The numbers run on from 1, each sender is a member, and `n` is the number that comes next.
abbrev pub InOrder : ℕ → List (ℕ × Option ℕ) → Type 0
InOrder n [] = n ≡ 1
InOrder n ((m, sender) ∷ l) = (n ≡ (m + 1) % 2 ^ 64) × (is_some sender ≡ true) × InOrder m l

-- Before the first event, and where the first event is refused, nothing was served and the counter
-- is not set.
abbrev pub Counted : State → ℕ → List (ℕ × Option ℕ) → Type 0
Counted State.start n l = l ≡ []
Counted State.error n l = (l ≡ []) ⊎ InOrder n l
Counted _ n l = InOrder n l

abbrev pub sender_of : Option Received → Option ℕ
sender_of none = none
sender_of (some m) = m.from

abbrev pub Sent : State → Option Received → Option ℕ → Type 0
Sent State.delivering r m = sender_of r ≡ m
Sent _ r m = Unit {0}

pub record IsValid (id : ℕ) (w : World) : Type 0 where
  pub same : w.id ≡ id
  pub client_open : w.client ≡ open_in w.cs
  pub peer_set : Implies (has_peer w.cs) w.peer
  pub member_set : Implies (has_member w.cs) (is_some w.member)
  pub member_cleared : Implies (is_some w.member) (open_in w.cs)
  pub message_set : Implies (delivers w.cs) (is_some w.recv_msg)
  pub closed_once : count w.id w.closed ≡ bit (done w.cs)
  pub sender_is_member : Sent w.cs w.recv_msg w.member
  pub counted : Counted w.cs w.recv_count (served w.calls)
