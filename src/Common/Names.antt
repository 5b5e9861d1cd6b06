-- ===== src/Common/Names.antt =====
-- Sets of names and maps from names, as lists.
use mathlib.Core.Path.{◌≡◌, sym}
use mathlib.Core.Bool.{Bool, true, false, not}
use mathlib.Core.Logic.{inl, inr}
use mathlib.Core.List.{List, [], ◌∷◌}
use mathlib.Core.Option.{Option, none, some}
use Prim.Native.Nat.{ℕ, ◌≤◌, ◌<◌}
use native.Mathlib.Omega.{arith}
use mikrotik_chr_script.Common.Tests.{if◌then◌else◌, Bool-cases}
use mikrotik_chr_script.Common.Lists.{In, any_of, keep, length}
use mikrotik_chr_script.Common.Bytes.{Bytes, bytes_eq, bytes_eq→eq, bytes_eq_self}

-- Whether a name is in a set
abbrev pub listed : Bytes → List Bytes → Bool
listed s names = any_of (bytes_eq s) names

pub listed→In : (s : Bytes) (names : List Bytes) → listed s names ≡ true → In s names
listed→In s [] h = cc
listed→In s (x ∷ names) h = ground (arith, bytes_eq→eq s x, listed→In s names)

pub In→listed : (s : Bytes) (names : List Bytes) → In s names → listed s names ≡ true
In→listed s [] m = absurd m
In→listed s (x ∷ names) (inl e) = rw e (ground (arith, bytes_eq_self x))
In→listed s (x ∷ names) (inr m) = ground (arith, In→listed s names m)

-- A map: the value of a name, and a name with a new value
abbrev pub value_of {ℓ} : {A : Type ℓ} → Bytes → List (Bytes × A) → Option A
value_of k [] = none
value_of k ((key, a) ∷ m) = let rest = value_of k m in if bytes_eq k key then some a else rest

abbrev pub put {ℓ} : {A : Type ℓ} → Bytes → A → List (Bytes × A) → List (Bytes × A)
put k a [] = (k, a) ∷ []
put k a ((key, b) ∷ m) =
    let rest = put k a m in if bytes_eq k key then (k, a) ∷ m else (key, b) ∷ rest

-- The names of a list that are not in a set
abbrev pub unseen : List Bytes → List Bytes → ℕ
unseen names seen = length (keep (λ n. not (listed n seen)) names)

pub unseen_mono :
    (names seen more : List Bytes)
    → ((k : Bytes) → In k seen → In k more)
    → unseen names more ≤ unseen names seen
unseen_mono [] seen more h = omega arith
unseen_mono (n ∷ names) seen more h = elim (Bool-cases (listed n seen)) [
  | inl e ↦
      let e' = In→listed n more (h n (listed→In n seen e)) in
      ground (arith, unseen_mono names seen more h)
  | inr e ↦ ground (arith, unseen_mono names seen more h, Bool-cases (listed n more))
]

-- One that is added to the set is not counted any more.
pub unseen_less :
    (names seen : List Bytes) (n : Bytes)
    → In n names
    → listed n seen ≡ false
    → unseen names (n ∷ seen) < unseen names seen
unseen_less [] seen n m h = absurd m
unseen_less (x ∷ names) seen n (inl e) h =
    let mono = unseen_mono names seen (n ∷ seen) (λ k i. inr i) in
    let self = bytes_eq_self n in rw (sym e) (ground arith)
unseen_less (x ∷ names) seen n (inr m) h =
    ground
      (arith, unseen_less names seen n m h, Bool-cases (bytes_eq x n), Bool-cases (listed x seen))

pub unseen_bound : (names seen : List Bytes) → unseen names seen ≤ length names
unseen_bound [] seen = omega arith
unseen_bound (x ∷ names) seen = ground (arith, unseen_bound names seen, Bool-cases (listed x seen))
