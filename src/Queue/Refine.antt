-- ===== src/Queue/Refine.antt =====
-- The ring buffer against the list of the messages that it holds.
use utu.Prelude.{
  ℕ, zero, suc, ◌+◌, ◌^◌, ◌≤◌, ◌<◌, ◌≡◌, refl, sym, ap, ◌∙◌, Bool, true, false, Option, none, some,
  List, [], ◌∷◌, ◌++◌, length, set, length-set, map, arith, ◌==◌, if◌then◌else◌, ◌>>=◌, inl, inr,
  Bool-cases, subst,
}
use utu.Message.{Store, ref_inc, destroy}
use utu.Queue.{
  MsgQueue, step, Outcome, create, is_empty, is_full, get_first, add, delete, drain, first,
}
use utu.Queue.Ring.{step_lem, window, window-snoc, window-set_behind, held, contents}
use utu.Queue.Fifo

-- The queue `q` holds the messages `l`, oldest first.
pub record Holds (q : MsgQueue) (l : List ℕ) : Type 0 where
  pub room : q.dim ≤ length q.messages
  pub small : q.dim < 2 ^ 64
  pub i_in : q.i < q.dim
  pub j_in : q.j < q.dim
  pub listed : contents q ≡ map some l

length-window : (slots : List (Option ℕ)) (dim h n : ℕ) → length (window slots dim h n) ≡ n
length-window slots dim h zero = refl
length-window slots dim h (suc n) = ap suc (length-window slots dim (step dim h) n)

length-map-some : (l : List ℕ) → length (map {B = Option ℕ} some l) ≡ length l
length-map-some [] = refl
length-map-some (x ∷ l) = ap suc (length-map-some l)

pub held-eq-length : (q : MsgQueue) (l : List ℕ) → Holds q l → held q ≡ length l
held-eq-length q l v =
    sym (length-window q.messages q.dim q.i (held q)) ∙ ap length v.listed ∙ length-map-some l

map-snoc :
    (l : List ℕ) (p : ℕ) → map {B = Option ℕ} some (l ++ (p ∷ [])) ≡ map some l ++ (some p ∷ [])
map-snoc [] p = refl
map-snoc (x ∷ l) p = ap (λ t. some x ∷ t) (map-snoc l p)

is_full_lem : (q : MsgQueue) (l : List ℕ) → Holds q l → is_full q ≡ (length l + 1 == q.dim)
unfolding is_full
is_full_lem q l v = ground (arith, held-eq-length q l v, step_lem q.dim q.j v.j_in v.small)

is_empty_lem : (q : MsgQueue) (l : List ℕ) → Holds q l → is_empty q ≡ (length l == 0)
unfolding is_empty
is_empty_lem q l v = ground (arith, held-eq-length q l v)

added-Holds :
    (q : MsgQueue) (l : List ℕ) (p : ℕ)
    → Holds q l
    → length l + 1 < q.dim
    → Holds
        (record q { messages = set q.messages q.j (some p); j = step q.dim q.j })
        (l ++ (p ∷ []))
added-Holds q l p v h = record {
  room = omega (arith, length-set q.messages q.j (some p), v.room);
  small = v.small;
  i_in = v.i_in;
  j_in = ground (arith, step_lem q.dim q.j v.j_in v.small);
  listed =
      ap (window (set q.messages q.j (some p)) q.dim q.i) grown
      ∙ window-snoc q.messages q.dim (some p) (held q) q.i q.j v.room v.small v.i_in
          (omega (arith, held-eq-length q l v)) (ground arith)
      ∙ rw (map-snoc l p, v.listed);
}
  where
    grown :
        held (record q { messages = set q.messages q.j (some p); j = step q.dim q.j })
        ≡ suc (held q)
    grown = ground (arith, step_lem q.dim q.j v.j_in v.small, held-eq-length q l v)

-- The first slot, and the slots behind it, of a queue that is not empty.
first-Holds :
    (q : MsgQueue) (p : ℕ) (l : List ℕ)
    → Holds q (p ∷ l)
    → (get_first q ≡ some p) × (window q.messages q.dim (step q.dim q.i) (length l) ≡ map some l)
first-Holds q p l v =
    let e = ap (window q.messages q.dim q.i) (sym (held-eq-length q (p ∷ l) v)) ∙ v.listed in
    (cc e, cc e)

deleted-Holds :
    (q : MsgQueue) (p : ℕ) (l : List ℕ)
    → Holds q (p ∷ l)
    → Holds (record q { messages = set q.messages q.i none; i = step q.dim q.i }) l
deleted-Holds q p l v = record {
  room = omega (arith, length-set q.messages q.i none, v.room);
  small = v.small;
  i_in = ground (arith, step_lem q.dim q.i v.i_in v.small);
  j_in = v.j_in;
  listed =
      ap (window (set q.messages q.i none) q.dim (step q.dim q.i)) shrunk
      ∙ window-set_behind q.messages q.dim none (length l) 0 q.i (step q.dim q.i) v.small v.i_in
          (step_lem q.dim q.i v.i_in v.small) (ground (arith, held-eq-length q (p ∷ l) v))
      ∙ (first-Holds q p l v).1;
}
  where
    shrunk : held (record q { messages = set q.messages q.i none; i = step q.dim q.i }) ≡ length l
    shrunk = ground (arith, step_lem q.dim q.i v.i_in v.small, held-eq-length q (p ∷ l) v)

not_empty : (q : MsgQueue) (p : ℕ) (l : List ℕ) → Holds q (p ∷ l) → is_empty q ≡ false
not_empty q p l v = ground (arith, is_empty_lem q (p ∷ l) v)

-- The ring and the list go the same way: both fault, or both return the same answer, with the same
-- messages left in the store and the new ring holding the new list.
abbrev pub Agree : Outcome → Fifo.Queued → Type 0
Agree none none = Unit {0}
Agree (some (q, st, b)) (some (l, st', b')) = Holds q l × (st ≡ st') × (b ≡ b')
Agree _ _ = ⊥

Agree-store :
    (r : Option Store) (q : MsgQueue) (l : List ℕ)
    → Holds q l
    → Agree (r >>= λ st. some (q, st, true)) (r >>= λ st. some (l, st, true))
Agree-store none q l h = tt
Agree-store (some st) q l h = (h, refl, refl)

-- `MsgQueue_add` is `Fifo.add`: a ring of `dim` slots refuses a message, and changes nothing, when
-- it holds `dim - 1`; otherwise it puts the message last and takes a reference to it.
pub add_refines :
    (q : MsgQueue) (l : List ℕ) (p : ℕ) (st : Store)
    → Holds q l
    → Agree (add q p st) (Fifo.add q.dim l p st)
unfolding add Fifo.add
add_refines q l p st v = rw (is_full_lem q l v) (elim (Bool-cases (length l + 1 == q.dim)) [
  | inl e ↦ rw e (v, refl, refl)
  | inr e ↦
      rw e (
        Agree-store (ref_inc p st) _ _ (added-Holds q l p v (ground (arith, held-eq-length q l v))))
])

bind_same :
    (r : Option Store) (q : MsgQueue) (f : MsgQueue → Store → Option Store)
    {g : Store → Option Store}
    → ((st : Store) → f q st ≡ g st)
    → (◌>>=◌ {A = MsgQueue × Store × Bool}
        (r >>= λ st. some (q, st, true))
        (λ (q', st, b). f q' st))
      ≡ (r >>= g)
bind_same none q f k = refl
bind_same (some st) q f k = k st

-- The loop of `MsgQueue_destroy` ends after as many rounds as there are messages, and drops the
-- reference to each of them, oldest first.
pub drain_refines :
    (fuel : ℕ) (q : MsgQueue) (l : List ℕ) (st : Store)
    → Holds q l
    → length l ≤ fuel
    → drain fuel q st ≡ Fifo.drain l st
unfolding drain delete Fifo.drain
drain_refines zero q [] st v h = rw (is_empty_lem q [] v)
drain_refines zero q (p ∷ l) st v h = absurd (omega arith)
drain_refines (suc fuel) q [] st v h = rw (is_empty_lem q [] v)
drain_refines (suc fuel) q (p ∷ l) st v h =
    rw (not_empty q p l v, (first-Holds q p l v).0)
      (bind_same (destroy p st) _ _
        (λ st'. drain_refines fuel _ l st' (deleted-Holds q p l v) (omega arith)))

-- `MsgQueue_first`: a dead queue gives nothing, a queue with messages its oldest without a wait, and
-- an empty one what stands first after the wait, if there is something and the queue is not dead by
-- then.
first_refines :
    (wait : MsgQueue → MsgQueue) (q : MsgQueue) (l l' : List ℕ)
    → Holds q l
    → Holds (wait q) l'
    → (first wait q).1 ≡ (
        if q.dead then none else elim l [
          | p ∷ _ ↦ some p
          | [] ↦ if (wait q).dead then none else elim l' [ p ∷ _ ↦ some p | [] ↦ none ]
        ])
unfolding first
first_refines wait q (p ∷ l) l' v v' = ground (arith, not_empty q p l v, first-Holds q p l v)
first_refines wait q [] [] v v' = ground (arith, is_empty_lem q [] v, is_empty_lem (wait q) [] v')
first_refines wait q [] (p ∷ l) v v' =
    ground (arith, is_empty_lem q [] v, not_empty (wait q) p l v', first-Holds (wait q) p l v')

-- A ring fresh from `MsgQueue_create` holds nothing, whatever its memory held before.
create-Holds :
    (memory : List (Option ℕ)) (dim : ℕ) (q : MsgQueue)
    → create memory dim ≡ some q
    → dim ≤ length memory
    → dim < 2 ^ 64
    → Holds q []
unfolding create
create-Holds memory zero q e h w = cc
create-Holds memory (suc n) q e h w = subst (λ r. Holds r []) (made_eq q e) made
  where
    made : Holds (record { messages = memory; dead = false; i = 0; j = 0; dim = suc n }) []
    made = record { room = h; small = w; i_in = omega arith; j_in = omega arith; listed = refl }

    made_eq :
        (b : MsgQueue)
        → create memory (suc n) ≡ some b
        → record { messages = memory; dead = false; i = 0; j = 0; dim = suc n } ≡ b
    made_eq b e = ground arith
