-- ===== src/Disk/Hex.antt =====
-- `hex.EncodeToString` and `hex.DecodeString` of encoding/hex, and `utf8.ValidString`, which
-- internal/disk/fingerprint.go calls on the identities of a disk.
use mikrotik_chr_script.Common.{
  ℕ, zero, suc, ◌+◌, ◌-◌, ◌*◌, ◌/◌, ◌%◌, ◌<◌, ◌≡◌, refl, Bool, false, ◌&&◌, [], ◌∷◌, ltb, leb, ◌==◌,
  if◌then◌else◌, Option, none, some, All, arith,
}
use mikrotik_chr_script.Common.Bytes.{Bytes}

-- A digit of "0123456789abcdef"
abbrev pub hex_digit : ℕ → ℕ
hex_digit n = if ltb n 10 then 48 + n else 87 + n

unfoldable pub hex_encode : Bytes → Bytes
hex_encode [] = []
hex_encode (b ∷ bs) = hex_digit (b / 16) ∷ hex_digit (b % 16) ∷ hex_encode bs

abbrev pub hex_value : ℕ → Option ℕ
hex_value c =
    if leb 48 c && leb c 57
    then some (c - 48)
    else if leb 97 c && leb c 102
    then some (c - 87)
    else if leb 65 c && leb c 70
    then some (c - 55)
    else none

abbrev join_digits : Option ℕ → Option ℕ → Option Bytes → Option Bytes
join_digits (some a) (some b) (some rest) = some ((a * 16 + b) ∷ rest)
join_digits a b rest = none

-- An odd number of digits is an error.
unfoldable pub hex_decode : Bytes → Option Bytes
hex_decode [] = some []
hex_decode (c ∷ []) = none
hex_decode (c ∷ d ∷ s) = join_digits (hex_value c) (hex_value d) (hex_decode s)

abbrev is_continuation : ℕ → Bool
is_continuation b = leb 0x80 b && leb b 0xbf

-- The second byte of a sequence of three or four, whose range depends on the first
abbrev second_ok : ℕ → ℕ → Bool
second_ok first b =
    if first == 0xe0
    then leb 0xa0 b && leb b 0xbf
    else if first == 0xed
    then leb 0x80 b && leb b 0x9f
    else if first == 0xf0
    then leb 0x90 b && leb b 0xbf
    else if first == 0xf4
    then leb 0x80 b && leb b 0x8f
    else is_continuation b

-- How many continuation bytes are due behind the byte, and the lead byte if it was one: `n` were due
-- in front of it, and `first` is the lead byte where it stands directly in front.
abbrev utf8_step : ℕ → ℕ → ℕ → Option (ℕ × ℕ)
utf8_step zero first b =
    if ltb b 0x80
    then some (0, 0)
    else if leb 0xc2 b && leb b 0xdf
    then some (1, b)
    else if leb 0xe0 b && leb b 0xef
    then some (2, b)
    else if leb 0xf0 b && leb b 0xf4
    then some (3, b)
    else none
utf8_step (suc n) first b = if second_ok first b then some (n, 0) else none

unfoldable pub utf8_from : Bytes → ℕ → ℕ → Bool
utf8_from [] n first = n == 0
utf8_from (b ∷ bs) n first = elim (utf8_step n first b) [
  | none ↦ false
  | some due ↦ utf8_from bs due.0 due.1
]

abbrev pub utf8_valid : Bytes → Bool
utf8_valid s = utf8_from s 0 0

hex_value_digit : (n : ℕ) → n < 16 → hex_value (hex_digit n) ≡ some n
hex_value_digit n lt = ground arith

-- What `hex_encode` writes, `hex_decode` reads.
pub hex_decode-hex_encode :
    (bytes : Bytes) → All (λ b. b < 256) bytes → hex_decode (hex_encode bytes) ≡ some bytes
unfolding hex_decode hex_encode
hex_decode-hex_encode [] small = refl
hex_decode-hex_encode (b ∷ bs) small = ground (
  arith,
  hex_value_digit (b / 16) (omega arith),
  hex_value_digit (b % 16) (omega arith),
  hex_decode-hex_encode bs small.1,
)
