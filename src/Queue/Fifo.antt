-- ===== src/Queue/Fifo.antt =====
-- What a message queue promises: first in, first out, and a reference on every message it holds.
use utu.Prelude.{
  ℕ, ◌+◌, Bool, true, false, Option, some, List, [], ◌∷◌, ◌++◌, length, ◌==◌, if◌then◌else◌, ◌>>=◌,
}
use utu.Message.{Store, ref_inc, destroy}

abbrev pub Queued : Type 0
Queued = Option (List ℕ × Store × Bool)

-- A ring of `dim` slots takes `dim - 1` messages.
unfoldable pub add : ℕ → List ℕ → ℕ → Store → Queued
add dim l p st =
    if length l + 1 == dim
    then some (l, st, false)
    else ref_inc p st >>= λ st'. some (l ++ (p ∷ []), st', true)

unfoldable pub delete : List ℕ → Store → Queued
delete [] st = some ([], st, false)
delete (p ∷ l) st = destroy p st >>= λ st'. some (l, st', true)

unfoldable pub drain : List ℕ → Store → Option Store
drain [] st = some st
drain (p ∷ l) st = destroy p st >>= drain l
