-- ===== src/Network/Dhcp/Options.antt =====
-- On internal/network/dhcp_linux.go: the options of an offer.
use mikrotik_chr_script.Common.{
  ℕ, zero, suc, ◌+◌, ◌-◌, ◌<◌, ◌≡◌, ◌≢◌, refl, ◌||◌, [], ◌∷◌, ◌++◌, ltb, ◌==◌, length, drop, slice,
  some, All, arith, Bool-cases, inl, inr, length-drop, length-append, take_append, drop_append,
}
use mikrotik_chr_script.Common.Bytes.{Bytes, byte_at}
use mikrotik_chr_script.Network.Dhcp.{Options, parse_from, parse_dhcp_options}

-- With more rounds than there are bytes the loop over the options ends with a result.
pub parse_from_total :
    (fuel : ℕ) (rest : Bytes) (found : Options)
    → length rest < fuel
    → (options : Options) × (parse_from fuel rest found ≡ some options)
unfolding parse_from
parse_from_total zero rest found lt = absurd (omega arith)
parse_from_total (suc fuel) [] found lt = (found, refl)
parse_from_total (suc fuel) (code ∷ rest) found lt = elim (Bool-cases (code == 0)) [
  | inl pad ↦
      let (options, more) = parse_from_total fuel rest found (omega arith) in
      (options, ground arith)
  | inr used ↦
      elim (Bool-cases
        (code == 255 || length rest == 0 || ltb (length rest - 1) (byte_at rest 0))) [
          | inl last ↦ (found, ground arith)
          | inr more ↦
              let (options, behind) =
                parse_from_total fuel (drop (1 + byte_at rest 0) rest)
                  ((code, slice rest 1 (1 + byte_at rest 0)) ∷ found)
                  (omega (arith, length-drop (1 + byte_at rest 0) rest)) in
              (options, ground arith)
        ]
]

-- Code, length and value of each option, and the end mark
abbrev pub encode_options : Options → Bytes
encode_options [] = 255 ∷ []
encode_options (o ∷ options) = o.0 ∷ length o.1 ∷ (o.1 ++ encode_options options)

-- The newest first
abbrev pub newest_first : Options → Options → Options
newest_first [] found = found
newest_first (o ∷ options) found = newest_first options (o ∷ found)

parse_from-encode_options :
    (fuel : ℕ) (options found : Options)
    → length (encode_options options) < fuel
    → All (λ o. (o.0 ≢ 0) × (o.0 ≢ 255)) options
    → parse_from fuel (encode_options options) found ≡ some (newest_first options found)
unfolding parse_from
parse_from-encode_options zero options found lt codes = absurd (omega arith)
parse_from-encode_options (suc fuel) [] found lt codes = refl
parse_from-encode_options (suc fuel) (o ∷ options) found lt codes =
    let value : Bytes = o.1 in
    let behind : Bytes = encode_options options in
    ground (
      arith,
      take_append value behind (length value) refl,
      drop_append value behind (length value) refl,
      length-append value behind,
      codes.0,
      parse_from-encode_options fuel options (o ∷ found) (omega (arith, length-append value behind))
          codes.1,
    )

-- Options that are written one behind the other, with an end mark, are read back, the newest first, if
-- no code is that of the padding or of the end mark.
pub parse_dhcp_options-encode_options :
    (options : Options)
    → All (λ o. (o.0 ≢ 0) × (o.0 ≢ 255)) options
    → parse_dhcp_options (encode_options options) ≡ newest_first options []
unfolding parse_dhcp_options
parse_dhcp_options-encode_options options codes =
    rw
      (parse_from-encode_options (length (encode_options options) + 1) options [] (omega arith)
        codes)
      refl
