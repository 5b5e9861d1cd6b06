-- ===== src/Common/Bytes.antt =====
-- Byte slices as lists of numbers, and the readers of encoding/binary.
use Prim.Native.Nat.{ℕ, ◌+◌, ◌*◌, ◌<◌}
use mathlib.Core.Path.{◌≡◌, refl}
use mathlib.Core.Bool.{Bool, true, false, ◌&&◌}
use mathlib.Core.List.{List, [], ◌∷◌}
use native.Mathlib.Omega.{arith}
use mikrotik_chr_script.Common.Tests.{◌==◌}
use mikrotik_chr_script.Common.Lists.{get_or}

abbrev pub Bytes : Type 0
Bytes = List ℕ

abbrev pub IsByte : ℕ → Type 0
IsByte b = b < 256

-- `data[i]`; the callers check the length first.
abbrev pub byte_at : Bytes → ℕ → ℕ
byte_at d i = get_or d i 0

abbrev pub le16 : Bytes → ℕ → ℕ
le16 d i = byte_at d i + 256 * byte_at d (i + 1)

abbrev pub le32 : Bytes → ℕ → ℕ
le32 d i = le16 d i + 65536 * le16 d (i + 2)

abbrev pub le64 : Bytes → ℕ → ℕ
le64 d i = le32 d i + 4294967296 * le32 d (i + 4)

abbrev pub be16 : Bytes → ℕ → ℕ
be16 d i = 256 * byte_at d i + byte_at d (i + 1)

-- `bytes.Equal`, and `==` on strings and byte arrays
abbrev pub bytes_eq : Bytes → Bytes → Bool
bytes_eq [] [] = true
bytes_eq [] (y ∷ ys) = false
bytes_eq (x ∷ xs) [] = false
bytes_eq (x ∷ xs) (y ∷ ys) = x == y && bytes_eq xs ys

pub bytes_eq→eq : (a b : Bytes) → bytes_eq a b ≡ true → a ≡ b
bytes_eq→eq [] [] h = refl
bytes_eq→eq [] (y ∷ ys) h = cc
bytes_eq→eq (x ∷ xs) [] h = cc
bytes_eq→eq (x ∷ xs) (y ∷ ys) h = ground (arith, bytes_eq→eq xs ys)

pub bytes_eq_self : (a : Bytes) → bytes_eq a a ≡ true
bytes_eq_self [] = refl
bytes_eq_self (x ∷ xs) = ground (arith, bytes_eq_self xs)

-- The loop of `allZero`, of disk/fingerprint.go and of mikrotik/gpt.go.
abbrev pub all_zero : Bytes → Bool
all_zero [] = true
all_zero (x ∷ xs) = x == 0 && all_zero xs
