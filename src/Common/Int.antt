-- ===== src/Common/Int.antt =====
-- Signed numbers over the native natural numbers: Go's int64 where a value can be negative.
use Prim.Native.Nat.{ℕ, suc, ◌+◌, ◌-◌}

pub data ℤ : Type 0 where
  pos negsuc : ℕ → ℤ

-- The distance from 0
abbrev pub magnitude : ℤ → ℕ
magnitude (pos n) = n
magnitude (negsuc n) = suc n

-- A point `n` of time moved by `z`; no time is moved to before the origin.
abbrev pub move : ℕ → ℤ → ℕ
move n (pos k) = n + k
move n (negsuc k) = n - suc k
