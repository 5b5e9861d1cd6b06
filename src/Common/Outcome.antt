-- ===== src/Common/Outcome.antt =====
-- Go's pair of a value and an error, as a value: the error of a failed call, or its result.
use mathlib.Core.Path.{◌≡◌, refl}
use mathlib.Core.Logic.{◌⊎◌, inl, inr}
use mathlib.Core.Bool.{Bool, true, false}
use mathlib.Core.Option.{Option, none, some}

pub data Result {ℓ κ} (E : Type ℓ) (A : Type κ) : Type (ℓ ⊔ κ) where
  ok : A → Result E A
  err : E → Result E A

-- A value goes on to the rest of the function, an error returns early.
infixl 5 ◌>>=◌ ◌>>◌
abbrev pub ◌>>=◌ {ℓ κ ι} :
    {E : Type ℓ} {A : Type κ} {B : Type ι} → Result E A → (A → Result E B) → Result E B
err early >>= rest = err early
ok value >>= rest = rest value

abbrev pub is_ok {ℓ κ} : {E : Type ℓ} {A : Type κ} → Result E A → Bool
is_ok (ok a) = true
is_ok (err e) = false

-- A call that returns an error alone, and the rest of the function
abbrev pub ◌>>◌ {ℓ κ} : {E : Type ℓ} {B : Type κ} → Result E (Unit {0}) → Result E B → Result E B
call >> rest = call >>= λ done. rest

-- `if bad { return err }`
abbrev pub reject_if {ℓ} : {E : Type ℓ} → Bool → E → Result E (Unit {0})
reject_if false problem = ok tt
reject_if true problem = err problem

-- The same call under another error type: `fmt.Errorf("...: %w", err)`.
abbrev pub wrap_err {ℓ κ ι} :
    {E : Type ℓ} {F : Type κ} {A : Type ι} → (E → F) → Result E A → Result F A
wrap_err f (ok a) = ok a
wrap_err f (err e) = err (f e)

abbrev pub from_option {ℓ κ} : {E : Type ℓ} {A : Type κ} → E → Option A → Result E A
from_option e none = err e
from_option e (some a) = ok a

pub Result-cases {ℓ κ} :
    {E : Type ℓ} {A : Type κ} (r : Result E A) → ((a : A) × (r ≡ ok a)) ⊎ ((e : E) × (r ≡ err e))
Result-cases (ok a) = inl (a, refl)
Result-cases (err e) = inr (e, refl)

-- A sequence that succeeds: the call does, with a value from which the rest does.
pub >>=-eq-ok {ℓ κ ι} :
    {E : Type ℓ} {A : Type κ} {B : Type ι} (call : Result E A) (rest : A → Result E B) {last : B}
    → call >>= rest ≡ ok last
    → (value : A) × (call ≡ ok value) × (rest value ≡ ok last)
>>=-eq-ok (err early) rest eq = absurd cc
>>=-eq-ok (ok value) rest eq = (value, refl, eq)

pub reject_if-eq-ok {ℓ} :
    {E : Type ℓ} (b : Bool) (e : E) {u : Unit {0}} → reject_if b e ≡ ok u → b ≡ false
reject_if-eq-ok true e h = cc
reject_if-eq-ok false e h = refl
