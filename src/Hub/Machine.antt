-- ===== src/Hub/Machine.antt =====
-- `Hub_create`, `Hub_exec` and `Hub_destroy`, over the tables.
use utu.Prelude.{
  ℕ, Bool, true, false, Option, none, some, List, [], ◌∷◌, if◌then◌else◌, ◌>>=◌, ◌>>◌, require,
}
use utu.Connection.Events.{HubEvent, code}
use utu.Message.{Store}
use utu.Hub.Finish.{Trees, Held, finish}
use utu.Hub.Chart.{State, Action}
use utu.Hub.Tables.{next}

-- What the actions do to other components and to memory; the trace has no counterpart in the
-- program.
pub data Call : Type 0 where
  crypt_create server_create server_listen server_destroy destroy_strings destroy_host : Call
  finish_connection destroy_connection : ℕ → Call
  route_destroy : Call

-- `Hub`: the key is `none` while it is null, the server is only there or not, `closed` is the list
-- of connection states. `counts` are the reference counts of the messages, and `calls` is newest
-- first.
pub record Hub : Type 0 where
  pub cs : State
  pub key : Option ℕ
  pub server : Bool
  pub closed : List ℕ
  pub counts : Store
  pub calls : List Call

-- The answers of `CryptState_create` with `CryptState_export_key`, and of `server_create`; and what
-- the connections hold, with the trees of the messages.
pub record Env : Type 0 where
  pub crypt : Bool
  pub new_key : Option ℕ
  pub server_made : Bool
  pub trees : Trees
  pub held : ℕ → Held

abbrev pub log : Call → Hub → Hub
log c h = record h { calls = c ∷ h.calls }

abbrev pub destroy_all : List ℕ → List Call → List Call
destroy_all [] calls = calls
destroy_all (c ∷ cs) calls = destroy_all cs (Call.destroy_connection c ∷ calls)

-- The cases of the `switch`; `none` is a failed assertion or a null pointer that is followed.
unfoldable pub perform : Env → Action → Hub → Option Hub
unfolding finish
perform env Action.cleanup h =
    let h' =
      if h.server
      then log Call.server_destroy (log Call.destroy_strings h)
      else log Call.destroy_host (log Call.destroy_strings h) in
    some (record h' { calls = destroy_all h.closed h'.calls })
perform env Action.listen h = some (log Call.server_listen h)
perform env Action.gen_key h = do
  require env.crypt
  some (record (log Call.crypt_create h) { key = env.new_key })
perform env Action.keys_ready h = do
  require env.server_made
  some (record (log Call.server_create h) { server = true })
perform env Action.close h = elim h.closed [
  | [] ↦ none
  | c ∷ cs ↦ finish env.trees (env.held c) h.counts >>= λ counts.
      some (record (log (Call.finish_connection c) h) { counts = counts })
]
perform env _ h = some h

unfoldable pub run_actions : Env → List Action → Hub → Option Hub
run_actions env [] h = some h
run_actions env (a ∷ acts) h = perform env a h >>= run_actions env acts

-- What `Hub_invariant` returns: -1, 0, 1.
pub data Status : Type 0 where
  failed active finished : Status

unfoldable pub invariant : State → Status
invariant State.error = failed
invariant State.final = finished
invariant _ = active

-- The driver on one event; the state changes before the actions run.
unfoldable pub fire : Env → State × List Action → Hub → Option (Hub × Status)
fire env (target, acts) h =
    run_actions env acts (record h { cs = target }) >>= λ u. some (u, invariant u.cs)

-- `Hub_exec`
unfoldable pub exec : Env → HubEvent → Hub → Option (Hub × Status)
exec env e h = elim h.cs [ State.error ↦ some (h, failed) | s ↦ fire env (next s (code e)) h ]

unfoldable pub is_active : Status → Bool
is_active active = true
is_active _ = false

-- `Hub_destroy`. The routes are destroyed in every state.
unfoldable pub destroy : Env → Hub → Option (Hub × Status)
unfolding exec
destroy env h = do
  (u, _) ← exec env HubEvent.done_ev h
  some (log Call.route_destroy u, invariant u.cs)

-- The hub that `Hub_create` has allocated when its machine starts.
abbrev pub blank : Hub
blank = record {
  cs = State.start;
  key = none;
  server = false;
  closed = [];
  counts = λ p. none;
  calls = [];
}

-- `on_fail(Hub_destroy(state); return NULL)`
unfoldable pub fail_create : Env → Hub → Option (Hub × Bool)
unfolding destroy
fail_create env h = destroy env h >>= λ (u, _). some (u, false)

-- `Hub_create` from the first event on, with the key or null: the hub, and whether it is returned.
unfoldable pub create : Env → Option ℕ → Option (Hub × Bool)
unfolding exec is_active fail_create
create env none = do
  (g, s) ← exec env HubEvent.gen_key blank
  if is_active s
      then (exec env HubEvent.gen_key_done g >>= λ (u, t).
          if is_active t then some (u, true) else fail_create env u)
      else fail_create env g
create env (some k) = do
  (u, s) ← exec env HubEvent.key_file_load blank
  if is_active s then some (record u { key = some k }, true) else fail_create env u
