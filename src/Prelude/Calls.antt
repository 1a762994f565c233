-- ===== src/Prelude/Calls.antt =====
-- Code that may fail a check or stop the process.
use mathlib.Core.Bool.{Bool, true, false}
use mathlib.Core.Option.{Option, none, some}
use mathlib.Core.Path.{◌≡◌, refl, ap}

-- `failed` is a null pointer or a 0 that is returned after a failed check; `stopped` is a failed
-- assertion, a null pointer that is followed, or a loop whose rounds have run out.
pub data Call (A : Type 0) : Type 0 where
  ok : A → Call A
  failed stopped : Call A

abbrev pub then_call : {A B : Type 0} → Call A → (A → Call B) → Call B
then_call (ok a) k = k a
then_call failed k = failed
then_call stopped k = stopped

-- `check`, with what is returned where there is nothing.
abbrev pub of_option : {A : Type 0} → Option A → Call A
of_option none = failed
of_option (some a) = ok a

-- A pointer that is followed.
abbrev pub or_stop : {A : Type 0} → Option A → Call A
or_stop none = stopped
or_stop (some a) = ok a

abbrev pub check : {A : Type 0} → Bool → Call A → Call A
check true k = k
check false k = failed

pub ok-injective : {A : Type 0} → (a b : A) → ok a ≡ ok b → a ≡ b
ok-injective a b e = ap (elim [ ok x ↦ x | failed ↦ a | stopped ↦ a ]) e

-- What a call returned that a call was made of.
pub then_call-ok :
    {A B : Type 0}
    → (c : Call A) (k : A → Call B) (b : B) → then_call c k ≡ ok b
    → (a : A) × (c ≡ ok a) × (k a ≡ ok b)
then_call-ok (ok a) k b e = (a, refl, e)
then_call-ok failed k b e = cc
then_call-ok stopped k b e = cc

pub of_option-ok : {A : Type 0} → (o : Option A) (a : A) → of_option o ≡ ok a → o ≡ some a
of_option-ok none a e = cc
of_option-ok (some x) a e = ap some (ok-injective x a e)

pub or_stop-ok : {A : Type 0} → (o : Option A) (a : A) → or_stop o ≡ ok a → o ≡ some a
or_stop-ok none a e = cc
or_stop-ok (some x) a e = ap some (ok-injective x a e)
