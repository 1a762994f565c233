-- ===== src/Queue.antt =====
-- The ring buffer of messages of src/hub/queue.c and src/hub/queue.h.
pub mod Ring
pub mod Fifo
pub mod Refine
pub mod References
use utu.Prelude.{
  ℕ, zero, suc, ◌+◌, ◌%◌, ◌^◌, Bool, true, false, ◌||◌, not, Option, none, some, List, get_or, set,
  ◌==◌, if◌then◌else◌, ◌>>=◌, ◌>>◌, require,
}
use utu.Message.{Store, ref_inc, destroy}

-- `messages` holds pointers to messages; `none` is the null pointer.
pub record MsgQueue : Type 0 where
  pub messages : List (Option ℕ)
  pub dead : Bool
  pub i : ℕ
  pub j : ℕ
  pub dim : ℕ

-- `(k + 1) % dim` on `size_t`.
abbrev pub step : ℕ → ℕ → ℕ
step dim k = (k + 1) % 2 ^ 64 % dim

-- `MsgQueue_create`; the slots come from `malloc` and are not cleared.
unfoldable pub create : List (Option ℕ) → ℕ → Option MsgQueue
create memory dim = do
  require (not (dim == 0))
  some (record { messages = memory; dead = false; i = 0; j = 0; dim = dim })

unfoldable pub is_empty : MsgQueue → Bool
is_empty q = q.i == q.j

unfoldable pub is_full : MsgQueue → Bool
is_full q = q.i == step q.dim q.j

abbrev pub get_first : MsgQueue → Option ℕ
get_first q = get_or q.messages q.i none

-- `MsgQueue_mark_dead`
unfoldable pub mark_dead : MsgQueue → MsgQueue
mark_dead q = record q { dead = true }

-- `MsgQueue_clear`
unfoldable pub clear : MsgQueue → MsgQueue
clear q = record q { i = 0; j = 0 }

-- What a call leaves behind: the queue, the messages and the result. `none` is a fault.
abbrev pub Outcome : Type 0
Outcome = Option (MsgQueue × Store × Bool)

-- `MsgQueue_add`
unfoldable pub add : MsgQueue → ℕ → Store → Outcome
unfolding is_full
add q p st =
    if is_full q
    then some (q, st, false)
    else ref_inc p st >>= λ st'.
        some (record q { messages = set q.messages q.j (some p); j = step q.dim q.j }, st', true)

-- `MsgQueue_delete`
unfoldable pub delete : MsgQueue → Store → Outcome
unfolding is_empty
delete q st = if is_empty q then some (q, st, false) else elim (get_first q) [
  | none ↦ some (q, st, false)
  | some p ↦ destroy p st >>= λ st'.
      some (record q { messages = set q.messages q.i none; i = step q.dim q.i }, st', true)
]

-- The loop of `MsgQueue_destroy`, on fuel: it deletes until the queue is empty. `none` is also a
-- loop that does not end within the fuel.
unfoldable pub drain : ℕ → MsgQueue → Store → Option Store
unfolding delete is_empty
drain zero q st = if is_empty q then some st else none
drain (suc fuel) q st =
    let rest = delete q st >>= λ (q', st', _). drain fuel q' st' in
    if is_empty q then some st else rest

-- `MsgQueue_first`. `wait` is what others do to the queue while the caller sleeps on it.
unfoldable pub first : (MsgQueue → MsgQueue) → MsgQueue → MsgQueue × Option ℕ
unfolding is_empty
first wait q =
    let q' = wait q in
    if q.dead
    then (q, none)
    else if is_empty q
    then (q', if q'.dead || is_empty q' then none else get_first q')
    else (q, get_first q)
