-- ===== src/Member/Broadcast.antt =====
-- `Hub_broadcast` against lists of messages.
use utu.Prelude.{
  ℕ, ◌≡◌, refl, sym, subst, Option, none, some, List, [], ◌∷◌, ◌>>=◌, Bool-cases, inl, inr,
}
use utu.Message.{Store}
use utu.Queue.{MsgQueue, Outcome, is_full, add}
use utu.Queue.Fifo
use utu.Queue.Refine.{Holds, Agree, add_refines}
use utu.Member.{send_msg, broadcast}

-- The queues as lists, with the slots that each has, and each offered the message in turn.
abbrev pub offer_all : List (ℕ × List ℕ) → ℕ → Store → Option (List (List ℕ) × Store)
offer_all [] p st = some ([], st)
offer_all ((dim, l) ∷ os) p st = Fifo.add dim l p st >>= λ (l', st', sent).
    offer_all os p st' >>= λ (ls, st''). some (l' ∷ ls, st'')

abbrev pub HoldsEach : List MsgQueue → List (ℕ × List ℕ) → Type 0
HoldsEach [] [] = Unit {0}
HoldsEach (q ∷ qs) ((dim, l) ∷ os) = Holds q l × (q.dim ≡ dim) × HoldsEach qs os
HoldsEach _ _ = ⊥

abbrev pub HoldsAll : List MsgQueue → List (List ℕ) → Type 0
HoldsAll [] [] = Unit {0}
HoldsAll (q ∷ qs) (l ∷ ls) = Holds q l × HoldsAll qs ls
HoldsAll _ _ = ⊥

abbrev pub AgreeAll : Option (List MsgQueue × Store) → Option (List (List ℕ) × Store) → Type 0
AgreeAll none none = Unit {0}
AgreeAll (some (qs, st)) (some (ls, st')) = HoldsAll qs ls × (st ≡ st')
AgreeAll _ _ = ⊥

send_msg-eq-add : (q : MsgQueue) (p : ℕ) (st : Store) → send_msg q p st ≡ add q p st
unfolding send_msg add
send_msg-eq-add q p st = elim (Bool-cases (is_full q)) [ inl e ↦ rw e refl | inr e ↦ rw e refl ]

pub send_refines :
    (q : MsgQueue) (l : List ℕ) (dim p : ℕ) (st : Store)
    → Holds q l
    → q.dim ≡ dim
    → Agree (send_msg q p st) (Fifo.add dim l p st)
send_refines q l dim p st h e =
    subst (λ d. Agree (send_msg q p st) (Fifo.add d l p st)) e
      (subst (λ o. Agree o (Fifo.add q.dim l p st)) (sym (send_msg-eq-add q p st))
        (add_refines q l p st h))

put_first :
    (o : Option (List MsgQueue × Store)) (f : Option (List (List ℕ) × Store)) (q : MsgQueue)
    (l : List ℕ)
    → Holds q l
    → AgreeAll o f
    → AgreeAll (o >>= λ (qs, st). some (q ∷ qs, st)) (f >>= λ (ls, st). some (l ∷ ls, st))
put_first none none q l h a = tt
put_first (some (qs, st)) (some (ls, st')) q l h a = ((h, a.0), a.1)
put_first none (some f) q l h a = absurd a
put_first (some o) none q l h a = absurd a

send_then :
    (o : Outcome) (f : Fifo.Queued) (on : Store → Option (List MsgQueue × Store))
    (to : Store → Option (List (List ℕ) × Store))
    → Agree o f
    → ((st : Store) → AgreeAll (on st) (to st))
    → AgreeAll
        (o >>= λ (q, st, sent). on st >>= λ (qs, st'). some (q ∷ qs, st'))
        (f >>= λ (l, st, sent). to st >>= λ (ls, st'). some (l ∷ ls, st'))
send_then none none on to a k = tt
send_then (some (q, st, b)) (some (l, st', b')) on to a k =
    put_first (on st) (to st') q l a.0 (subst (λ s. AgreeAll (on st) (to s)) a.1 (k st))
send_then none (some f) on to a k = absurd a
send_then (some o) none on to a k = absurd a

-- `Hub_broadcast` offers the message to every member's queue in turn: a queue with room takes it
-- last, with a reference, and a full one stays as it is.
pub broadcast_refines :
    (qs : List MsgQueue) (os : List (ℕ × List ℕ)) (p : ℕ) (st : Store)
    → HoldsEach qs os
    → AgreeAll (broadcast qs p st) (offer_all os p st)
unfolding broadcast
broadcast_refines [] [] p st h = (tt, refl)
broadcast_refines (q ∷ qs) ((dim, l) ∷ os) p st h =
    send_then (send_msg q p st) (Fifo.add dim l p st) (broadcast qs p) (offer_all os p)
      (send_refines q l dim p st h.0 h.1) (λ st'. broadcast_refines qs os p st' h.2)
broadcast_refines [] (o ∷ os) p st h = absurd h
broadcast_refines (q ∷ qs) [] p st h = absurd h
