-- ===== src/Queue/References.antt =====
-- Destroying a queue drops the references that it holds, and no others.
use utu.Prelude.{ℕ, suc, ◌^◌, ◌≤◌, ◌<◌, List, [], ◌∷◌, ◌==◌, if◌then◌else◌}
use utu.Message.{Store}
use utu.Message.Counts.{refs}
use utu.Queue.Fifo

-- How often a message stands in the list.
abbrev pub count : ℕ → List ℕ → ℕ
count k [] = 0
count k (p ∷ l) = if p == k then suc (count k l) else count k l

-- Every message has the references that the list needs, and fewer than a `short` can count.
abbrev pub Backed : List ℕ → Store → Type 0
Backed l st = (k : ℕ) → (count k l ≤ refs st k) × (refs st k < 2 ^ 15)
