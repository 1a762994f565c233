-- ===== src/Hub/Finish.antt =====
-- `ConnectionState_finish` of src/hub/connection.c: what a closed connection still holds is freed.
use utu.Prelude.{
  ℕ, ◌+◌, ◌%◌, ◌^◌, ◌≡◌, refl, Bool, true, false, not, Option, none, some, ◌==◌, ltb, if◌then◌else◌,
  ◌>>=◌, ==_refl, Bool-cases, inl, inr,
}
use utu.Stackish.Node.{Node, nil, cons}
use utu.Stackish.Destroy.{node_destroy, node_destroy_lem, depth, count, max_tree_deep}
use utu.Message.{Store, put, destroy}

-- `hdr` and `body` of each message, which may be null.
pub record Trees : Type 0 where
  pub hdr : ℕ → Option Node
  pub body : ℕ → Option Node

-- What a connection holds: messages by their address, and trees.
pub record Held : Type 0 where
  pub recv_msg : Option ℕ
  pub recv_hdr : Option Node
  pub recv_body : Option Node
  pub send_msg : Option ℕ

-- `if(n) Node_destroy(n)`, with what is done next.
unfoldable pub free_tree : Option Node → Option Store → Option Store
unfolding node_destroy
free_tree none next = next
free_tree (some n) next = node_destroy (cons n nil) >>= λ k. next

-- `Message_destroy`, which frees the trees with the last reference.
unfoldable pub free_message : Trees → ℕ → Store → Option Store
unfolding destroy free_tree
free_message trees p st = destroy p st >>= λ left. elim (left p) [
  | none ↦ free_tree (trees.hdr p) (free_tree (trees.body p) (some left))
  | some r ↦ some left
]

unfoldable pub free_pointer : Trees → Option ℕ → Store → Option Store
unfolding free_message
free_pointer trees none st = some st
free_pointer trees (some p) st = free_message trees p st

-- What was received: the message, or body and header where there is none.
unfoldable pub free_received : Trees → Held → Store → Option Store
unfolding free_message free_tree
free_received trees c st = elim c.recv_msg [
  | some p ↦ free_message trees p st
  | none ↦ free_tree c.recv_body (free_tree c.recv_hdr (some st))
]

-- `ConnectionState_finish`, of which the caller drops what it returns.
unfoldable pub finish : Trees → Held → Store → Option Store
unfolding free_received free_pointer
finish trees c st = free_received trees c st >>= free_pointer trees c.send_msg

-- A tree that cannot be freed: a path of 128 nodes or more by siblings and children.
abbrev pub too_deep : Option Node → Bool
too_deep none = false
too_deep (some n) = not (ltb (depth (cons n nil)) max_tree_deep)

-- The reference count of a message after one is dropped.
abbrev pub one_less : ℕ → ℕ
one_less r = (r + 65535) % 2 ^ 16

abbrev pub dropped : ℕ → Store → Store
dropped p st = elim (st p) [
  | none ↦ st
  | some r ↦ put p (if one_less r == 0 then none else some (one_less r)) st
]

-- Dropping a reference stops the process: the message is not there, its count falls below 0, or it
-- was the last reference and a tree cannot be freed.
abbrev pub message_stops : Trees → ℕ → Store → Bool
message_stops trees p st = elim (st p) [
  | none ↦ true
  | some r ↦
      if ltb (one_less r) (2 ^ 15)
      then if one_less r == 0
        then if too_deep (trees.hdr p) then true else too_deep (trees.body p)
        else false
      else true
]

abbrev pub pointer_stops : Trees → Option ℕ → Store → Bool
pointer_stops trees none st = false
pointer_stops trees (some p) st = message_stops trees p st

abbrev pub pointer_dropped : Option ℕ → Store → Store
pointer_dropped none st = st
pointer_dropped (some p) st = dropped p st

abbrev pub received_stops : Trees → Held → Store → Bool
received_stops trees c st = elim c.recv_msg [
  | some p ↦ message_stops trees p st
  | none ↦ if too_deep c.recv_body then true else too_deep c.recv_hdr
]

-- Finishing a connection stops the process: what it received cannot be freed, or then the message
-- that it was to send.
abbrev pub finish_stops : Trees → Held → Store → Bool
finish_stops trees c st =
    if received_stops trees c st
    then true
    else pointer_stops trees c.send_msg (pointer_dropped c.recv_msg st)

-- What finishing leaves of the counts.
abbrev pub finished_counts : Held → Store → Store
finished_counts c st = pointer_dropped c.send_msg (pointer_dropped c.recv_msg st)

free_tree_lem :
    (o : Option Node) (next : Option Store) → free_tree o next ≡ (if too_deep o then none else next)
unfolding free_tree
free_tree_lem none next = refl
free_tree_lem (some n) next =
    rw (node_destroy_lem (cons n nil)) (at (ltb (depth (cons n nil)) max_tree_deep))
  where
    at :
        (b : Bool)
        → ((if b then some (count (cons n nil)) else none) >>= λ k. next)
          ≡ (if not b then none else next)
    at true = refl
    at false = refl

free_both :
    (trees : Trees) (p : ℕ) (st : Store)
    → free_tree (trees.hdr p) (free_tree (trees.body p) (some st)) ≡ (
        if (if too_deep (trees.hdr p) then true else too_deep (trees.body p))
        then none
        else some st)
free_both trees p st =
    rw
      (
        free_tree_lem (trees.body p) (some st),
        free_tree_lem (trees.hdr p) (if too_deep (trees.body p) then none else some st),
      )
      (at (too_deep (trees.hdr p)) (too_deep (trees.body p)))
  where
    at :
        (a b : Bool)
        → (if a then none else (if b then none else some st))
          ≡ (if (if a then true else b) then none else some st)
    at true b = refl
    at false b = refl

put_at : (p : ℕ) (o : Option ℕ) (st : Store) → put p o st p ≡ o
put_at p o st = rw (==_refl p) refl

free_message_lem :
    (trees : Trees) (p : ℕ) (st : Store)
    → free_message trees p st ≡ (if message_stops trees p st then none else some (dropped p st))
unfolding free_message destroy
free_message_lem trees p st = at (st p) refl
  where
    left_none :
        (left : Store)
        → left p ≡ none
        → (elim (left p) [
          | none ↦ free_tree (trees.hdr p) (free_tree (trees.body p) (some left))
          | some r ↦ some left
        ])
          ≡ (if (if too_deep (trees.hdr p) then true else too_deep (trees.body p))
              then none
              else some left)
    left_none left q = rw q (free_both trees p left)

    left_some :
        (left : Store) (n : ℕ)
        → left p ≡ some n
        → (elim (left p) [
          | none ↦ free_tree (trees.hdr p) (free_tree (trees.body p) (some left))
          | some r ↦ some left
        ])
          ≡ some left
    left_some left n q = rw q refl

    at :
        (o : Option ℕ)
        → st p ≡ o
        → free_message trees p st ≡ (if message_stops trees p st then none else some (dropped p st))
    at none e = rw (message_stops, dropped, e, free_message, destroy) refl
    at (some r) e = elim (Bool-cases (ltb (one_less r) (2 ^ 15))) [
      | inr f ↦ rw (message_stops, dropped, e, free_message, destroy, f) refl
      | inl f ↦ elim (Bool-cases (one_less r == 0)) [
        | inl g ↦
            rw (message_stops, dropped, e, free_message, destroy, f, g)
              (left_none (put p none st) (put_at p none st))
        | inr g ↦
            rw (message_stops, dropped, e, free_message, destroy, f, g)
              (left_some (put p (some (one_less r)) st) (one_less r)
                (put_at p (some (one_less r)) st))
      ]
    ]

free_pointer_lem :
    (trees : Trees) (o : Option ℕ) (st : Store)
    → free_pointer trees o st
      ≡ (if pointer_stops trees o st then none else some (pointer_dropped o st))
unfolding free_pointer
free_pointer_lem trees none st = refl
free_pointer_lem trees (some p) st = free_message_lem trees p st

free_received_lem :
    (trees : Trees) (c : Held) (st : Store)
    → free_received trees c st
      ≡ (if received_stops trees c st then none else some (pointer_dropped c.recv_msg st))
unfolding free_received
free_received_lem trees c st = at c.recv_msg
  where
    kept :
        (a b : Bool)
        → (if a then none else (if b then none else some st))
          ≡ (if (if a then true else b) then none else some st)
    kept true b = refl
    kept false b = refl

    at :
        (o : Option ℕ)
        → free_received trees (record c { recv_msg = o }) st ≡ (
            if received_stops trees (record c { recv_msg = o }) st
            then none
            else some (pointer_dropped o st))
    at (some p) = free_message_lem trees p st
    at none =
        rw
          (
            free_tree_lem c.recv_hdr (some st),
            free_tree_lem c.recv_body (if too_deep c.recv_hdr then none else some st),
          )
          (kept (too_deep c.recv_body) (too_deep c.recv_hdr))

-- `ConnectionState_finish` stops the process exactly where `finish_stops` says, and otherwise drops
-- a reference to each message that the connection holds.
pub finish_lem :
    (trees : Trees) (c : Held) (st : Store)
    → finish trees c st ≡ (if finish_stops trees c st then none else some (finished_counts c st))
unfolding finish
finish_lem trees c st = rw (free_received_lem trees c st) (
    at (received_stops trees c st)
      (free_pointer_lem trees c.send_msg (pointer_dropped c.recv_msg st)))
  where
    at :
        (b : Bool)
        → free_pointer trees c.send_msg (pointer_dropped c.recv_msg st) ≡ (
            if pointer_stops trees c.send_msg (pointer_dropped c.recv_msg st)
            then none
            else some (finished_counts c st))
        → ((if b then none else some (pointer_dropped c.recv_msg st))
            >>= free_pointer trees c.send_msg)
          ≡ (if (if b then true else pointer_stops trees c.send_msg (pointer_dropped c.recv_msg st))
              then none
              else some (finished_counts c st))
    at true e = refl
    at false e = e
