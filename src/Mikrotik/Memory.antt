-- ===== src/Mikrotik/Memory.antt =====
-- A Go byte slice that is written in place: its content by offset. Its size is kept beside it.
use mikrotik_chr_script.Common.{
  ℕ, zero, suc, ◌+◌, ◌-◌, ◌*◌, ◌/◌, ◌%◌, ◌≤◌, ◌<◌, ◌≡◌, refl, ap, Bool, true, ◌&&◌, [], ◌∷◌, ◌++◌,
  length, take, ltb, leb, ◌==◌, if◌then◌else◌, arith,
}
use mikrotik_chr_script.Common.Bytes.{Bytes, byte_at}

abbrev pub Memory : Type 0
Memory = ℕ → ℕ

-- `make([]byte, n)`
abbrev pub zeros : Memory
zeros i = 0

-- `copy(m[off:off+n], src)` for a `src` of `n` bytes
abbrev pub blit : Memory → ℕ → ℕ → Memory → Memory
blit m off n src i = if leb off i && ltb i (off + n) then src (i - off) else m i

-- `copy(m[off:], bytes)` within the slice
abbrev pub copy_at : Memory → ℕ → Bytes → Memory
copy_at m off bytes = blit m off (length bytes) (byte_at bytes)

-- `m[off] = b`
abbrev pub poke : Memory → ℕ → ℕ → Memory
poke m off b i = if i == off then b else m i

-- `binary.LittleEndian.PutUint16(m[off:off+2], v)` and `PutUint32`
abbrev pub put16 : Memory → ℕ → ℕ → Memory
put16 m off v = poke (poke m off (v % 256)) (off + 1) (v / 256 % 256)

abbrev pub put32 : Memory → ℕ → ℕ → Memory
put32 m off v = put16 (put16 m off (v % 65536)) (off + 2) (v / 65536 % 65536)

-- `binary.LittleEndian.Uint16(m[off:off+2])` and `Uint32`
abbrev pub mem16 : Memory → ℕ → ℕ
mem16 m off = m off + 256 * m (off + 1)

abbrev pub mem32 : Memory → ℕ → ℕ
mem32 m off = mem16 m off + 65536 * mem16 m (off + 2)

-- `m[off:off+n]`
unfoldable pub read_bytes : Memory → ℕ → ℕ → Bytes
read_bytes m off zero = []
read_bytes m off (suc n) = m off ∷ read_bytes m (off + 1) n

-- `bytes.Equal(a[p:p+n], b[q:q+n])`
unfoldable pub same_bytes : Memory → ℕ → Memory → ℕ → ℕ → Bool
same_bytes a p b q zero = true
same_bytes a p b q (suc n) = a p == b q && same_bytes a (p + 1) b (q + 1) n

pub length-read_bytes : (m : Memory) (off n : ℕ) → length (read_bytes m off n) ≡ n
unfolding read_bytes
length-read_bytes m off zero = refl
length-read_bytes m off (suc n) = ap suc (length-read_bytes m (off + 1) n)

pub read_bytes-cong :
    (m k : Memory) (off off' n : ℕ)
    → ((i : ℕ) → i < n → m (off + i) ≡ k (off' + i))
    → read_bytes m off n ≡ read_bytes k off' n
unfolding read_bytes
read_bytes-cong m k off off' zero h = refl
read_bytes-cong m k off off' (suc n) h = ground (
  arith,
  h 0 (omega arith),
  read_bytes-cong m k (off + 1) (off' + 1) n (λ i hi. ground (arith, h (suc i) (omega arith))),
)

pub read_bytes-add :
    (m : Memory) (off n k : ℕ)
    → read_bytes m off n ++ read_bytes m (off + n) k ≡ read_bytes m off (n + k)
unfolding read_bytes
read_bytes-add m off zero k = ground arith
read_bytes-add m off (suc n) k =
    let next : off + suc n ≡ off + 1 + n = omega arith in
    let longer : suc n + k ≡ suc (n + k) = omega arith in
    rw (next, longer) (ap (λ t. m off ∷ t) (read_bytes-add m (off + 1) n k))

-- A list, read back from where it stands.
pub read_bytes-bytes :
    (m : Memory) (off : ℕ) (bytes : Bytes)
    → ((i : ℕ) → i < length bytes → m (off + i) ≡ byte_at bytes i)
    → read_bytes m off (length bytes) ≡ bytes
unfolding read_bytes
read_bytes-bytes m off [] h = refl
read_bytes-bytes m off (b ∷ bytes) h = ground (
  arith,
  h 0 (omega arith),
  read_bytes-bytes m (off + 1) bytes (λ i hi. ground (arith, h (suc i) (omega arith))),
)

pub byte_at-read_bytes :
    (m : Memory) (off n i : ℕ) → i < n → byte_at (read_bytes m off n) i ≡ m (off + i)
unfolding read_bytes
byte_at-read_bytes m off zero i h = absurd (omega arith)
byte_at-read_bytes m off (suc n) zero h = ground arith
byte_at-read_bytes m off (suc n) (suc i) h =
    ground (arith, byte_at-read_bytes m (off + 1) n i (omega arith))

pub take-read_bytes :
    (m : Memory) (off n k : ℕ) → k ≤ n → take k (read_bytes m off n) ≡ read_bytes m off k
unfolding read_bytes
take-read_bytes m off n zero h = refl
take-read_bytes m off zero (suc k) h = absurd (omega arith)
take-read_bytes m off (suc n) (suc k) h =
    ap (λ t. m off ∷ t) (take-read_bytes m (off + 1) n k (omega arith))

pub same_bytes_self :
    (a b : Memory) (p q n : ℕ)
    → ((i : ℕ) → i < n → a (p + i) ≡ b (q + i))
    → same_bytes a p b q n ≡ true
unfolding same_bytes
same_bytes_self a b p q zero h = refl
same_bytes_self a b p q (suc n) h = ground (
  arith,
  h 0 (omega arith),
  same_bytes_self a b (p + 1) (q + 1) n (λ i hi. ground (arith, h (suc i) (omega arith))),
)
