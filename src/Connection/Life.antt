-- ===== src/Connection/Life.antt =====
-- A connection from `Hub_queue_conn` on (src/hub/hub_state.c): its first state, and any sequence of
-- events, each with the answers that the other components give during it.
use utu.Prelude.{ℕ, ◌≡◌, true, false, Option, none, some, List, [], ◌∷◌, ◌>>=◌}
use utu.Connection.States.{State}
use utu.Connection.World.{World, Visit, Happening}
use utu.Connection.Exec.{done, exec, happen}
use utu.Connection.Valid.{count, bit, served, Counted}

-- `Hub_new_or_reuse_conn` clears the state, `Hub_queue_conn` sets the client, and
-- `ConnectionState_init` the first state. `closed` is what the hub's list then holds.
unfoldable pub fresh : ℕ → List ℕ → World
fresh id closed = record {
  id = id;
  cs = State.start;
  recv_count = 0;
  send_count = 0;
  client = true;
  peer = false;
  member = none;
  recv_hdr = false;
  recv_body = false;
  recv_msg = none;
  send_msg = none;
  closed = closed;
  calls = [];
}

-- What becomes of a connection by what happens to it. `visit` is what its task meets once an event
-- opens it; three levels of calls always do.
unfoldable pub run : Visit → List Happening → World → Option World
run visit [] w = some w
run visit (h ∷ rest) w = happen (exec 3 visit) h w >>= run visit rest

-- What a connection's life comes to, at any moment of it.
pub record Lived (id : ℕ) (u : World) : Type 0 where
  pub closed_once : count id u.closed ≡ bit (done u.cs)
  pub numbered : Counted u.cs u.recv_count (served u.calls)
