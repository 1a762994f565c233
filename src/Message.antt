-- ===== src/Message.antt =====
-- Messages with reference counts: `Message_ref_inc` and `Message_destroy` of
-- src/protocol/message.h and src/protocol/message.c.
pub mod Counts
pub mod Decons
use utu.Prelude.{
  ℕ, ◌+◌, ◌%◌, ◌^◌, ◌≤◌, ◌<◌, Bool, Option, none, some, ◌==◌, ltb, if◌then◌else◌, ◌>>=◌, ◌>>◌,
  require,
}

-- The `ref_count` of each message that is allocated. A `short` is the bit pattern of its value, so
-- the numbers from 2 ^ 15 on stand for negative counts.
abbrev pub Store : Type 0
Store = ℕ → Option ℕ

abbrev pub put : ℕ → Option ℕ → Store → Store
put p r st k = if p == k then r else st k

-- `Message_ref_inc`; `none` if the message is not there.
unfoldable pub ref_inc : ℕ → Store → Option Store
ref_inc p st = st p >>= λ r. some (put p (some ((r + 1) % 2 ^ 16)) st)

-- `Message_destroy`: one reference less, and the message is freed with the last. A count below 0 is
-- a failed assertion.
unfoldable pub destroy : ℕ → Store → Option Store
destroy p st = do
  r ← st p
  let left = (r + 65535) % 2 ^ 16
  require (ltb left (2 ^ 15))
  some (put p (if left == 0 then none else some left) st)
