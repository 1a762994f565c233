-- ===== src/Commands/Delivery.antt =====
-- `Route_deliver` of src/hub/routing.c against lists of messages.
use utu.Prelude.{
  ℕ, ◌+◌, ◌≡◌, refl, sym, ap, ◌∙◌, subst, Bool, true, false, Option, none, some, List, [], ◌∷◌,
  ◌==◌, take, if◌then◌else◌, ◌>>=◌, Bool-cases, Option-cases, inl, inr, arith,
}
use utu.Prelude.Calls.{Call, ok, stopped, then_call, or_stop}
use utu.Message.{Store, ref_inc}
use utu.Queue.{MsgQueue, Outcome, is_full, add}
use utu.Queue.Fifo
use utu.Queue.Refine.{Holds, Agree}
use utu.Member.{send_msg}
use utu.Member.Broadcast.{send_refines}
use utu.Routing.{update}
use utu.Commands.{Hub, member_send}
use utu.Commands.Service.{deliver, route_deliver}

abbrev pub Delivered : Type 0
Delivered = Option ((ℕ → List ℕ) × Store × Option ℕ)

-- Each member in turn is offered the message, until one whose list is as long as it may be; `slots` is
-- one more than that.
abbrev pub offer_each : (ℕ → ℕ) → ℕ → List ℕ → ℕ → (ℕ → List ℕ) → Store → Delivered
offer_each slots msg [] count lists st = some (lists, st, some count)
offer_each slots msg (m ∷ ms) count lists st =
    Fifo.add (slots m) (lists m) msg st >>= λ (l, st', sent).
    let more = offer_each slots msg ms (count + 1) (update lists m l) st' in
    if sent then more else some (update lists m l, st', none)

-- The queues of all members hold lists.
abbrev pub HoldsMembers : (ℕ → ℕ) → (ℕ → MsgQueue) → (ℕ → List ℕ) → Type 0
HoldsMembers slots queues lists = (m : ℕ) → Holds (queues m) (lists m) × ((queues m).dim ≡ slots m)

abbrev pub Delivers : (ℕ → ℕ) → Call (Hub × Option ℕ) → Delivered → Type 0
Delivers slots stopped none = Unit {0}
Delivers slots (ok (u, n)) (some (lists, st, k)) =
    HoldsMembers slots u.queues lists × (u.counts ≡ st) × (n ≡ k)
Delivers slots _ _ = ⊥

-- Sending keeps the number of slots.
abbrev KeepsSlots : ℕ → Outcome → Type 0
KeepsSlots slots none = Unit {0}
KeepsSlots slots (some (q, st, b)) = q.dim ≡ slots

send_msg-KeepsSlots : (q : MsgQueue) (p : ℕ) (st : Store) → KeepsSlots q.dim (send_msg q p st)
unfolding send_msg add
send_msg-KeepsSlots q p st = elim (Bool-cases (is_full q)) [
  | inl e ↦
      subst (λ b. KeepsSlots q.dim (if b then some (q, st, false) else add q p st)) (sym e) refl
  | inr e ↦ elim (Option-cases (ref_inc p st)) [
    | inl d ↦ rw (e, add, d) tt
    | inr (st', d) ↦ rw (e, add, d) refl
  ]
]

-- One member, where the rest of the loop delivers.
deliver_step :
    (slots : ℕ → ℕ) (msg m : ℕ) (hub : Hub) (lists : ℕ → List ℕ) (o : Outcome) (f : Fifo.Queued)
    (on : Hub → Call (Hub × Option ℕ)) (to : (ℕ → List ℕ) → Store → Delivered)
    → HoldsMembers slots hub.queues lists
    → Agree o f
    → KeepsSlots (slots m) o
    → ((u : Hub) (ls : ℕ → List ℕ)
        → HoldsMembers slots u.queues ls
        → Delivers slots (on u) (to ls u.counts))
    → Delivers slots
        (then_call
          (then_call (or_stop o) (λ (q, counts, sent).
            ok (record hub { queues = update hub.queues m q; counts = counts }, sent)))
          (λ (u, sent). if sent then on u else ok (u, none)))
        (f >>= λ (l, st, sent).
          if sent then to (update lists m l) st else some (update lists m l, st, none))
deliver_step slots msg m hub lists none none on to h a k rest = tt
deliver_step slots msg m hub lists (some (q, st, b)) (some (l, st', b')) on to h (holds, same, sent)
      k rest =
    subst
      (λ c.
        Delivers slots (if b then on now else ok (now, none))
          (if c then to (update lists m l) st' else some (update lists m l, st', none)))
      sent (after b)
  where
    now : Hub
    now = record hub { queues = update hub.queues m q; counts = st }

    held : HoldsMembers slots now.queues (update lists m l)
    held = λ p. elim (Bool-cases (p == m)) [
      | inl e ↦ subst (at p) (sym e) (holds, k ∙ ap slots (sym (same_member p e)))
      | inr e ↦ subst (at p) (sym e) (h p)
    ]
      where
        same_member : (p : ℕ) → (p == m) ≡ true → p ≡ m
        same_member p e = ground arith

        at : ℕ → Bool → Type 0
        at p c =
            Holds (if c then q else hub.queues p) (if c then l else lists p)
            × ((if c then q else hub.queues p).dim ≡ slots p)

    after :
        (c : Bool)
        → Delivers slots
            (if c then on now else ok (now, none))
            (if c then to (update lists m l) st' else some (update lists m l, st', none))
    after true =
        subst (λ s. Delivers slots (on now) (to (update lists m l) s)) same
          (rest now (update lists m l) held)
    after false = (held, same, refl)
deliver_step slots msg m hub lists none (some f) on to h a k rest = absurd a
deliver_step slots msg m hub lists (some o) none on to h a k rest = absurd a

pub deliver_refines :
    (slots : ℕ → ℕ) (msg : ℕ) (ms : List ℕ) (count : ℕ) (hub : Hub) (lists : ℕ → List ℕ)
    → HoldsMembers slots hub.queues lists
    → Delivers slots (deliver msg ms count hub) (offer_each slots msg ms count lists hub.counts)
unfolding deliver member_send
deliver_refines slots msg [] count hub lists h = (h, refl, refl)
deliver_refines slots msg (m ∷ ms) count hub lists h =
    let (held, dim) = h m in
    deliver_step slots msg m hub lists (send_msg (hub.queues m) msg hub.counts)
      (Fifo.add (slots m) (lists m) msg hub.counts) (deliver msg ms (count + 1))
      (offer_each slots msg ms (count + 1)) h
      (send_refines (hub.queues m) (lists m) (slots m) msg hub.counts held dim)
      (subst (λ n. KeepsSlots n (send_msg (hub.queues m) msg hub.counts)) dim
        (send_msg-KeepsSlots (hub.queues m) msg hub.counts))
      (λ u ls. deliver_refines slots msg ms (count + 1) u ls)

-- Route_deliver offers the message to the members of the route in turn, as often as they are
-- registered. A queue with room takes it last, with a reference. The first queue that is full ends
-- the delivery, which then returns -1; otherwise it returns how many have got the message.
pub route_deliver_refines :
    (slots : ℕ → ℕ) (route msg : ℕ) (hub : Hub) (lists : ℕ → List ℕ)
    → HoldsMembers slots hub.queues lists
    → Delivers slots (route_deliver route msg hub) (
        offer_each slots msg
          (take (hub.table.routes route).members.last (hub.table.routes route).members.members)
          0
          lists
          hub.counts)
unfolding route_deliver
route_deliver_refines slots route msg hub lists h =
    deliver_refines slots msg
      (take (hub.table.routes route).members.last (hub.table.routes route).members.members) 0 hub
      lists h
