-- ===== src/Tests/Queues.antt =====
-- The ring of messages and its references.
use utu.Prelude.{ℕ, ◌≡◌, refl, false, Option, none, some, [], ◌∷◌, arith}
use utu.Message.{Store, destroy}
use utu.Queue.{MsgQueue, add, delete, drain}
use utu.Queue.Fifo
use utu.Queue.Refine.{Holds, Agree, add_refines, drain_refines}
use utu.Member.{broadcast}
use utu.Member.Broadcast.{AgreeAll, offer_all, broadcast_refines}

-- Every message has two references.
abbrev pub store : Store
store k = some 2

-- Messages 5 and 6, round the end of the ring.
abbrev wrapped : MsgQueue
wrapped = record { messages = some 6 ∷ none ∷ some 5 ∷ []; dead = false; i = 2; j = 1; dim = 3 }

wrapped-Holds : Holds wrapped (5 ∷ 6 ∷ [])
wrapped-Holds = record {
  room = omega arith;
  small = omega arith;
  i_in = omega arith;
  j_in = omega arith;
  listed = refl;
}

drained_store : Option ℕ
drained_store = elim (drain 2 wrapped store) [ none ↦ none | some st ↦ st 5 ]

drained_five : drained_store ≡ some 1
unfolding drained_store drain delete destroy
drained_five = refl

add_refines_example : Agree (add wrapped 8 store) (Fifo.add 3 (5 ∷ 6 ∷ []) 8 store)
add_refines_example = add_refines wrapped (5 ∷ 6 ∷ []) 8 store wrapped-Holds

drain_refines_example : drain 4 wrapped store ≡ Fifo.drain (5 ∷ 6 ∷ []) store
drain_refines_example = drain_refines 4 wrapped (5 ∷ 6 ∷ []) store wrapped-Holds (omega arith)

abbrev pub empty_queue : MsgQueue
empty_queue = record { messages = none ∷ none ∷ []; dead = false; i = 1; j = 1; dim = 2 }

pub empty_queue-Holds : Holds empty_queue []
empty_queue-Holds = record {
  room = omega arith;
  small = omega arith;
  i_in = omega arith;
  j_in = omega arith;
  listed = refl;
}

-- The queue of the first member takes the message, and that of the second is full.
broadcast_refines_example :
    AgreeAll
      (broadcast (empty_queue ∷ wrapped ∷ []) 8 store)
      (offer_all ((2, []) ∷ (3, 5 ∷ 6 ∷ []) ∷ []) 8 store)
broadcast_refines_example =
    broadcast_refines (empty_queue ∷ wrapped ∷ []) ((2, []) ∷ (3, 5 ∷ 6 ∷ []) ∷ []) 8 store
      (empty_queue-Holds, refl, (wrapped-Holds, refl, tt))
