-- ===== src/Connection/Opening.antt =====
-- `ConnectionState_incoming` of src/hub/connection_state.c, which the machine runs on opening.
use utu.Prelude.{
  ℕ, suc, ◌≡◌, ◌≢◌, refl, sym, ◌∙◌, subst, Bool, true, false, Option, none, some, List, [], ◌∷◌,
  ◌==◌, if◌then◌else◌, ◌>>=◌, is_some, arith, Bool-cases, inl, inr,
}
use utu.Connection.Events.{HubEvent, msg_recv}
use utu.Connection.States.{State}
use utu.Connection.World.{
  World, Env, Visit, Status, Happening, own_event, other_closed, other_reused, Read, active, failed,
  finished,
}
use utu.Connection.Exec.{sends, take_head, happen, happen_all, take_msg, incoming, done, exec}
use utu.Connection.Chart.{chart}
use utu.Connection.Nested.{exec-fire, exec-done}
use utu.Connection.Valid.{IsValid, count}
use utu.Connection.Steps.{Returns, Good, fired, step-Good}
use utu.Connection.Reading.{Reads, reading, step-Reads}

-- A connection on which messages are read is valid, and reads.
abbrev pub Ready : ℕ → World → Type 0
Ready id w = IsValid id w × Reads w

abbrev pub Ends : (World → Type 0) → Option World → Type 0
Ends P none = ⊥
Ends P (some u) = P u

pub Returns-Ends :
    {P : World → Status → Type 0} (Q : World → Type 0) (r : Option (World × Status))
    → Returns P r
    → ((u : World) (s : Status) → P u s → Q u)
    → Ends Q (r >>= λ (u, _). some u)
Returns-Ends Q none h k = absurd h
Returns-Ends Q (some (u, s)) h k = k u s h

pub Ends-bind :
    {P : World → Type 0} (Q : World → Type 0) (r : Option World) (f : World → Option World)
    → Ends P r
    → ((u : World) → P u → Ends Q (f u))
    → Ends Q (r >>= f)
Ends-bind Q none f h k = absurd h
Ends-bind Q (some u) f h k = k u h

pub Returns-both :
    {P Q R : World → Status → Type 0}
    → (r : Option (World × Status)) → Returns P r
    → Returns Q r
    → ((u : World) (s : Status) → P u s → Q u s → R u s)
    → Returns R r
Returns-both none p q k = absurd p
Returns-both (some (u, s)) p q k = k u s p q

pub relisted-IsValid :
    (id : ℕ) (w : World) (l : List ℕ)
    → count w.id l ≡ count w.id w.closed
    → IsValid id w
    → IsValid id (record w { closed = l })
relisted-IsValid id w l h v = record {
  same = v.same;
  client_open = v.client_open;
  peer_set = v.peer_set;
  member_set = v.member_set;
  member_cleared = v.member_cleared;
  message_set = v.message_set;
  closed_once = h ∙ v.closed_once;
  sender_is_member = v.sender_is_member;
  counted = v.counted;
}

pub other_lists :
    (i j : ℕ) (l : List ℕ)
    → (count i (if i == j then l else j ∷ l) ≡ count i l) × (count i (take_head i l) ≡ count i l)
unfolding count
other_lists i j l = ((ground arith), head_kept i l)
  where
    head_kept : (i : ℕ) (l : List ℕ) → count i (take_head i l) ≡ count i l
    head_kept i [] = refl
    head_kept i (j ∷ l) = ground arith

pub got-IsValid :
    (id : ℕ) (hdr body : Bool) (w : World)
    → IsValid id w
    → IsValid id (record w { recv_hdr = hdr; recv_body = body })
got-IsValid id hdr body w v = record {
  same = v.same;
  client_open = v.client_open;
  peer_set = v.peer_set;
  member_set = v.member_set;
  member_cleared = v.member_cleared;
  message_set = v.message_set;
  closed_once = v.closed_once;
  sender_is_member = v.sender_is_member;
  counted = v.counted;
}

not_start : (s : State) → reading s ≡ true → s ≢ State.start
not_start s r q = ground arith

module _ (d : ℕ) (visit : Visit) (id : ℕ) where
  abbrev machine : Env → HubEvent → World → Option (World × Status)
  machine = exec (suc (suc d)) visit

  pub by_fire :
      (Q : World → Status → Type 0) (env : Env) (e : HubEvent) (s : State) (w : World)
      → w.cs ≡ s
      → done s ≡ false
      → Returns Q (fired d visit env id (incoming (exec (suc d) visit) visit) (chart s e) w)
      → Returns Q (machine env e w)
  by_fire Q env e s w p n g = subst (Returns Q) (sym (exec-fire (suc d) visit env e w s p n)) g

  pub machine-Ready :
      (env : Env) (e : HubEvent) (w : World)
      → Ready id w
      → Returns (λ u t. Ready id u) (machine env e w)
  machine-Ready env e w (v, r) = elim (Bool-cases (done w.cs)) [
    | inl h ↦ rw (exec-done (suc d) visit env e w h) (v, r)
    | inr h ↦
        by_fire (λ u t. Ready id u) env e w.cs w refl h
          (Returns-both {P = Good id} {Q = λ u t. Reads u} {R = λ u t. Ready id u} _
            (step-Good d visit env id _ w.cs e w refl h (not_start w.cs r.0) v)
            (step-Reads d visit env id _ w.cs e w refl h r v) (λ u t g k. (g.0, k)))
  ]

  pub sends-Ready :
      (env : Env) (e : HubEvent) (w : World) → Ready id w → Ends (Ready id) (sends machine env e w)
  sends-Ready env e w r =
      Returns-Ends (Ready id) (machine env e w) (machine-Ready env e w r) (λ u t k. k)

  happen-Ready : (h : Happening) (w : World) → Ready id w → Ends (Ready id) (happen machine h w)
  unfolding happen
  happen-Ready (own_event env e) w r = sends-Ready env e w r
  happen-Ready (other_closed j) w (v, r) =
      (relisted-IsValid id w _ (other_lists w.id j w.closed).0 v, r)
  happen-Ready other_reused w (v, r) =
      (relisted-IsValid id w _ (other_lists w.id 0 w.closed).1 v, r)

  pub happen_all-Ready :
      (hs : List Happening) (w : World) → Ready id w → Ends (Ready id) (happen_all machine hs w)
  unfolding happen_all
  happen_all-Ready [] w r = r
  happen_all-Ready (h ∷ rest) w r =
      Ends-bind (Ready id) (happen machine h w) (happen_all machine rest) (happen-Ready h w r)
        (λ u k. happen_all-Ready rest u k)

  pub take_msg-Ready : (t : Read) (w : World) → Ready id w → Ends (Ready id) (take_msg machine t w)
  unfolding take_msg
  take_msg-Ready t w r =
      Ends-bind (Ready id) (happen_all machine t.locking w) _ (happen_all-Ready t.locking w r)
        (λ u k. served (machine t.received msg_recv u) (machine-Ready t.received msg_recv u k))
    where
      again :
          (b : Bool) (v : World)
          → Ready id v
          → Ends (Ready id) (if b then sends machine t.serviced HubEvent.svc_recv v else some v)
      again true v k = sends-Ready t.serviced HubEvent.svc_recv v k
      again false v k = k

      served :
          (r : Option (World × Status))
          → Returns (λ u s. Ready id u) r
          → Ends (Ready id) (
              r >>= λ (v, status). elim status [
                | active ↦
                    if is_some v.recv_msg
                    then sends machine t.serviced HubEvent.svc_recv v
                    else some v
                | _ ↦ some v
              ])
      served none k = absurd k
      served (some (v, active)) k = again (is_some v.recv_msg) v k
      served (some (v, failed)) k = k
      served (some (v, finished)) k = k
