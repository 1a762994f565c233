-- ===== src/Hub/Life.antt =====
-- The tables against the chart, and what holds of a hub from `Hub_create` to `Hub_destroy`.
use utu.Prelude.{
  ℕ, suc, ◌≡◌, ◌≢◌, ◌⊎◌, refl, Bool, true, false, not, ◌≤◌, Option, none, some, List, [], ◌∷◌,
  arith, ap, sym, subst, ◌∙◌, Bool-cases, inl, inr,
}
use utu.Connection.Events.{HubEvent, code}
use utu.Message.{Store}
use utu.Hub.Finish.{finish_stops, finish_lem}
use utu.Hub.Chart.{State, Action, chart}
use utu.Hub.Tables.{next}
use utu.Hub.Machine.{
  Hub, Call, Env, Status, perform, run_actions, invariant, fire, exec, create, destroy_all,
}

-- In every state but the error state, which the driver leaves before it reads the tables, the
-- tables give each event the target and the actions, in order, that the chart gives it.
pub hub_next-eq-chart : (s : State) (e : HubEvent) → s ≢ State.error → next s (code e) ≡ chart s e
unfolding next chart
hub_next-eq-chart State.error e h = absurd (h refl)
hub_next-eq-chart State.start HubEvent.open_ev h = refl
hub_next-eq-chart _ HubEvent.open_ev h = refl
hub_next-eq-chart _ _ h = refl

-- How often the hub's strings were freed.
abbrev pub cleanups : List Call → ℕ
cleanups [] = 0
cleanups (Call.destroy_strings ∷ l) = suc (cleanups l)
cleanups (_ ∷ l) = cleanups l

abbrev pub running : State → Bool
running State.crypto_ready = true
running State.listening = true
running _ = false

-- The states before the hub is torn down.
abbrev pub alive : State → Bool
alive State.final = false
alive State.error = false
alive _ = true

-- The strings of the hub are freed once, with the transition to the final state; a hub that listens
-- or is ready to has its server.
pub record IsValid (h : Hub) : Type 0 where
  pub served : running h.cs ≡ true → h.server ≡ true
  pub kept : alive h.cs ≡ true → cleanups h.calls ≡ 0
  pub freed : h.cs ≡ State.final → cleanups h.calls ≡ 1
  pub freed_once : cleanups h.calls ≤ 1

is_empty : List ℕ → Bool
is_empty [] = true
is_empty _ = false

-- The events that stop the process: a key or a server that cannot be made, and a close where no
-- connection is on the list, or where what the first one holds cannot be freed.
abbrev pub stops : Env → HubEvent → State → List ℕ → Store → Bool
stops env HubEvent.gen_key State.start closed st = not env.crypt
stops env HubEvent.key_file_load State.start closed st = not env.server_made
stops env HubEvent.gen_key_done State.gen_keys closed st = not env.server_made
stops env HubEvent.close_ev State.listening [] st = true
stops env HubEvent.close_ev State.listening (c ∷ cs) st = finish_stops env.trees (env.held c) st
stops _ _ _ _ _ = false

-- The process stops, or goes on with `P` of the hub and the status.
abbrev pub Outcome : Bool → (Hub → Status → Type 0) → Option (Hub × Status) → Type 0
Outcome true P r = r ≡ none
Outcome false P none = ⊥
Outcome false P (some (u, s)) = P u s

cleanups-destroy_all : (l : List ℕ) (c : List Call) → cleanups (destroy_all l c) ≡ cleanups c
cleanups-destroy_all [] c = refl
cleanups-destroy_all (x ∷ l) c = cleanups-destroy_all l (Call.destroy_connection x ∷ c)

abbrev Good : Hub → Status → Type 0
Good u s = IsValid u × (s ≡ invariant u.cs)

kept_of : (h : Hub) → IsValid h → (s : State) → h.cs ≡ s → alive s ≡ true → cleanups h.calls ≡ 0
kept_of h v s p a = v.kept (ap alive p ∙ a)

cleanup-Good :
    (env : Env) (h : Hub)
    → cleanups h.calls ≡ 0
    → Outcome false Good (fire env (State.final, Action.cleanup ∷ []) h)
unfolding fire run_actions perform invariant
cleanup-Good env h z = elim (Bool-cases h.server) [
  | inl o ↦
      ground (
        arith,
        cleanups-destroy_all h.closed (Call.server_destroy ∷ Call.destroy_strings ∷ h.calls),
      )
  | inr o ↦
      ground
        (arith, cleanups-destroy_all h.closed (Call.destroy_host ∷ Call.destroy_strings ∷ h.calls))
]

close-Good :
    (env : Env) (h : Hub)
    → IsValid h
    → (l : List ℕ) → h.closed ≡ l
    → h.cs ≡ State.listening
    → Outcome
        (stops env HubEvent.close_ev State.listening h.closed h.counts)
        Good
        (fire env (chart State.listening HubEvent.close_ev) h)
unfolding fire run_actions perform invariant chart
close-Good env h v [] e p = ground arith
close-Good env h v (c ∷ cs) e p =
    rw (e, finish_lem env.trees (env.held c) h.counts)
      (elim (Bool-cases (finish_stops env.trees (env.held c) h.counts)) [
        | inl k ↦ ground arith
        | inr k ↦ ground arith
      ])

step-Good :
    (env : Env) (s : State) (e : HubEvent) (h : Hub)
    → h.cs ≡ s
    → s ≢ State.error
    → IsValid h
    → Outcome (stops env e s h.closed h.counts) Good (fire env (chart s e) h)
unfolding fire run_actions perform invariant chart
step-Good env State.error e h p n v = absurd (n refl)
step-Good env State.start HubEvent.gen_key h p n v = ground arith
step-Good env State.listening HubEvent.close_ev h p n v = close-Good env h v h.closed refl p
step-Good env State.listening HubEvent.done_ev h p n v = cleanup-Good env h (kept_of h v _ p refl)
step-Good env State.crypto_ready HubEvent.done_ev h p n v =
    cleanup-Good env h (kept_of h v _ p refl)
step-Good env State.final e h p n v = ground arith
step-Good env _ _ h p n v = ground arith

exec-fire :
    (env : Env) (e : HubEvent) (h : Hub) (s : State)
    → h.cs ≡ s
    → s ≢ State.error
    → exec env e h ≡ fire env (chart s e) h
unfolding exec fire
exec-fire env e h State.error p n = absurd (n refl)
exec-fire env e h State.start p n = rw (p, exec) (rw (hub_next-eq-chart State.start e n) refl)
exec-fire env e h s p n = rw (p, exec) (rw (hub_next-eq-chart _ e n) refl)

stops-error :
    (env : Env) (e : HubEvent) (l : List ℕ) (st : Store) → stops env e State.error l st ≡ false
stops-error env HubEvent.open_ev l st = refl
stops-error env _ l st = refl

State-cases : (s : State) → (s ≡ State.error) ⊎ (s ≢ State.error)
State-cases State.error = inl refl
State-cases State.start = inr (λ q. cc)
State-cases _ = inr (λ q. cc)

error-Good :
    (env : Env) (e : HubEvent) (h : Hub)
    → IsValid h
    → h.cs ≡ State.error
    → Outcome false Good (exec env e h)
unfolding exec invariant
error-Good env e h v p = ground arith

-- An event in the life of a hub stops the process exactly where the key or the server cannot be
-- made, or where a connection closes and none is on the list, or where ConnectionState_finish of
-- the first one there drops a reference to a message that is gone or whose count falls below 0,
-- or frees a tree with a path of 128 nodes or more by siblings and children. After any other
-- event the hub is valid again, and the status is that of its state: its strings are freed once,
-- by the event that leads to the final state, and a hub that is ready or listens has its server.
pub exec-Outcome :
    (env : Env) (e : HubEvent) (h : Hub)
    → IsValid h
    → Outcome
        (stops env e h.cs h.closed h.counts)
        (λ u s. IsValid u × (s ≡ invariant u.cs))
        (exec env e h)
exec-Outcome env e h v = elim (State-cases h.cs) [
  | inl p ↦
      rw
        (subst (λ t. stops env e t h.closed h.counts ≡ false) (sym p)
          (stops-error env e h.closed h.counts))
        (error-Good env e h v p)
  | inr n ↦ rw (exec-fire env e h h.cs refl n) (step-Good env h.cs e h refl n v)
]

-- `Hub_create` returns a hub that is ready for `UEv_LISTEN`, with its server and the key that was
-- given, or with the key that was made if there was none.
create-ready :
    (env : Env) (key : Option ℕ)
    → env.crypt ≡ true
    → env.server_made ≡ true
    → (h : Hub) × (create env key ≡ some (h, true))
      × IsValid h
      × (h.cs ≡ State.crypto_ready)
      × (h.server ≡ true)
      × (h.key ≡ (elim key [ none ↦ env.new_key | some k ↦ some k ]))
unfolding create next fire run_actions perform invariant
create-ready env none c m = (
  record {
    cs = State.crypto_ready;
    key = env.new_key;
    server = true;
    closed = [];
    counts = λ p. none;
    calls = Call.server_create ∷ Call.crypt_create ∷ [];
  },
  ground arith,
  ground arith,
  refl,
  refl,
  refl,
)
create-ready env (some k) c m = (
  record {
    cs = State.crypto_ready;
    key = some k;
    server = true;
    closed = [];
    counts = λ p. none;
    calls = Call.server_create ∷ [];
  },
  ground arith,
  ground arith,
  refl,
  refl,
  refl,
)
