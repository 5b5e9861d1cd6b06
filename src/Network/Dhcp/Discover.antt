-- ===== src/Network/Dhcp/Discover.antt =====
-- On internal/network/dhcp_linux.go: the checksum, and the packet that is sent.
use mikrotik_chr_script.Common.{
  ℕ, ◌+◌, ◌*◌, ◌/◌, ◌%◌, ◌^◌, ◌<◌, ◌≡◌, refl, [], ◌∷◌, ◌==◌, length, slice, none, some, arith,
  Bool-cases, inl, inr,
}
use mikrotik_chr_script.Common.Bytes.{Bytes}
use mikrotik_chr_script.Network.Dhcp.{
  sum_words, fold_carry, checksum, build_dhcp_discover, parse_dhcp_offer,
}

-- The loop that folds the carries ends on every sum of 32 bits, with a sum of 16 bits that is the same
-- modulo 65535.
pub fold_carry_total :
    (sum : ℕ)
    → sum < 2 ^ 32
    → (folded : ℕ) × (fold_carry 3 sum ≡ some folded)
      × (folded < 65536)
      × (folded % 65535 ≡ sum % 65535)
unfolding fold_carry
fold_carry_total sum lt =
    let once : ℕ = sum % 65536 + sum / 65536 in
    let twice : ℕ = once % 65536 + once / 65536 in
    elim (Bool-cases (sum / 65536 == 0)) [
      | inl small ↦ (sum, ground arith, ground arith, refl)
      | inr large ↦ elim (Bool-cases (once / 65536 == 0)) [
        | inl small ↦ (once, ground arith, ground arith, omega arith)
        | inr again ↦ (twice, ground arith, ground arith, omega arith)
      ]
    ]

-- RFC 1071 without its arithmetic: the 16-bit words of a text, a last byte being the upper half of one,
-- added up as numbers.
unfoldable pub word_sum : Bytes → ℕ
word_sum [] = 0
word_sum (b ∷ []) = b * 256
word_sum (b ∷ c ∷ rest) = b * 256 + c + word_sum rest

sum_words-word_sum :
    (bytes : Bytes) (sum : ℕ)
    → sum + word_sum bytes < 2 ^ 32
    → sum_words bytes sum ≡ sum + word_sum bytes
unfolding sum_words word_sum
sum_words-word_sum [] sum lt = omega arith
sum_words-word_sum (b ∷ []) sum lt = omega arith
sum_words-word_sum (b ∷ c ∷ rest) sum lt =
    let next : (sum + (b * 256 + c)) % 2 ^ 32 ≡ sum + (b * 256 + c) = omega arith in
    let same = sum_words-word_sum rest (sum + (b * 256 + c)) (omega arith) in
    rw next (omega (arith, same))

-- For every text whose words add up to less than 2^32: its checksum has 16 bits, and the words and the
-- checksum together are a multiple of 65535, which is what a receiver tests.
pub checksum-word_sum :
    (bytes : Bytes)
    → word_sum bytes < 2 ^ 32
    → (checksum bytes < 65536) × ((word_sum bytes + checksum bytes) % 65535 ≡ 0)
unfolding checksum
checksum-word_sum bytes lt =
    let same : sum_words bytes 0 ≡ word_sum bytes =
      omega (arith, sum_words-word_sum bytes 0 (omega arith)) in
    let (folded, ends, small, rest) = fold_carry_total (word_sum bytes) lt in
    rw (same, ends) (omega arith, omega arith)

-- A packet that asks for an address has 302 bytes for every MAC and transaction, the words of its IP
-- header add up to a multiple of 65535, and it is not taken for an offer.
pub build_dhcp_discover-word_sum :
    (a b c d e f x y z w : ℕ) (t : Bytes)
    → (length (build_dhcp_discover (a ∷ b ∷ c ∷ d ∷ e ∷ f ∷ []) (x ∷ y ∷ z ∷ w ∷ [])) ≡ 302)
      × (word_sum
              (slice (build_dhcp_discover (a ∷ b ∷ c ∷ d ∷ e ∷ f ∷ []) (x ∷ y ∷ z ∷ w ∷ [])) 14 34)
            % 65535
          ≡ 0)
      × (parse_dhcp_offer (build_dhcp_discover (a ∷ b ∷ c ∷ d ∷ e ∷ f ∷ []) (x ∷ y ∷ z ∷ w ∷ [])) t
          ≡ none)
unfolding build_dhcp_discover checksum sum_words fold_carry parse_dhcp_offer word_sum
build_dhcp_discover-word_sum a b c d e f x y z w t = (refl, refl, refl)
