-- ===== src/Network/Dhcp.antt =====
-- internal/network/dhcp_linux.go: the DHCPDISCOVER packet, its checksum, and the DHCPOFFER that is
-- read. The socket around them is not modelled; of an offer the message type and the two addresses
-- are kept, as bytes.
pub mod Options
pub mod Discover
use mikrotik_chr_script.Common.{
  ℕ, zero, suc, ◌+◌, ◌-◌, ◌*◌, ◌/◌, ◌%◌, ◌^◌, Bool, true, false, not, ◌||◌, List, [], ◌∷◌, ◌++◌,
  ltb, ◌==◌, if◌then◌else◌, length, take, drop, slice, replicate, get_or, Option, none, some,
}
use mikrotik_chr_script.Common.Bytes.{Bytes, byte_at, be16, bytes_eq}

abbrev pub Options : Type 0
Options = List (ℕ × Bytes)

-- The loop of `parseDHCPOptions`, on what is left of the data; the newest option stands first. `none`
-- is no result of the program: the fuel ran out.
unfoldable pub parse_from : ℕ → Bytes → Options → Option Options
parse_from zero rest found = none
parse_from (suc fuel) [] found = some found
parse_from (suc fuel) (code ∷ rest) found = elim (code == 0) [
  | true ↦ parse_from fuel rest found
  | false ↦ elim (code == 255 || length rest == 0 || ltb (length rest - 1) (byte_at rest 0)) [
    | true ↦ some found
    | false ↦
        parse_from fuel (drop (1 + byte_at rest 0) rest)
          ((code, slice rest 1 (1 + byte_at rest 0)) ∷ found)
  ]
]

abbrev or_empty : Option Options → Options
or_empty none = []
or_empty (some options) = options

unfoldable pub parse_dhcp_options : Bytes → Options
parse_dhcp_options bytes = or_empty (parse_from (length bytes + 1) bytes [])

-- `options[code]`, which is empty where there is none
unfoldable pub option_value : Options → ℕ → Bytes
option_value [] code = []
option_value (o ∷ options) code =
    let rest = option_value options code in if o.0 == code then o.1 else rest

-- The sum of the loop over the words, on uint32
unfoldable pub sum_words : Bytes → ℕ → ℕ
sum_words [] sum = sum
sum_words (b ∷ []) sum = (sum + b * 256) % 2 ^ 32
sum_words (b ∷ c ∷ rest) sum = sum_words rest ((sum + (b * 256 + c)) % 2 ^ 32)

-- The loop that folds the carries in; a sum of 32 bits needs two rounds at most.
unfoldable pub fold_carry : ℕ → ℕ → Option ℕ
fold_carry zero sum = none
fold_carry (suc fuel) sum =
    let next = fold_carry fuel (sum % 65536 + sum / 65536) in
    if sum / 65536 == 0 then some sum else next

-- `^uint16(sum)`
abbrev complement : Option ℕ → ℕ
complement none = 0
complement (some sum) = 65535 - sum

unfoldable pub checksum : Bytes → ℕ
checksum bytes = complement (fold_carry 3 (sum_words bytes 0))

abbrev be16_bytes : ℕ → Bytes
be16_bytes n = n / 256 % 256 ∷ n % 256 ∷ []

abbrev pub magic : Bytes
magic = 99 ∷ 130 ∷ 83 ∷ 99 ∷ []

-- The 240 bytes of the header, field by field, and the options
abbrev discover_body : Bytes → Bytes → Bytes
discover_body mac transaction =
    (1 ∷ 1 ∷ 6 ∷ 0 ∷ [])
    ++ transaction
    ++ (0 ∷ 0 ∷ 0x80 ∷ 0 ∷ [])
    ++ replicate 16 0
    ++ mac
    ++ replicate 202 0
    ++ magic
    ++ (53 ∷ 1 ∷ 1 ∷ 61 ∷ 7 ∷ 1 ∷ [])
    ++ mac
    ++ (55 ∷ 5 ∷ 1 ∷ 3 ∷ 6 ∷ 51 ∷ 54 ∷ 255 ∷ [])

-- The IP header, with the two bytes of its checksum
abbrev ip_header : ℕ → Bytes → Bytes
ip_header ip_length sum_bytes =
    (0x45 ∷ 0 ∷ [])
    ++ be16_bytes ip_length
    ++ (0 ∷ 0 ∷ 0 ∷ 0 ∷ 64 ∷ 17 ∷ [])
    ++ sum_bytes
    ++ (0 ∷ 0 ∷ 0 ∷ 0 ∷ 255 ∷ 255 ∷ 255 ∷ 255 ∷ [])

unfoldable pub build_dhcp_discover : Bytes → Bytes → Bytes
build_dhcp_discover mac transaction =
    let dhcp = discover_body mac transaction in
    let udp_length = 8 + length dhcp in
    let ip_length = 20 + udp_length in
    replicate 6 0xff
    ++ mac
    ++ be16_bytes 0x0800
    ++ ip_header ip_length (be16_bytes (checksum (ip_header ip_length (0 ∷ 0 ∷ []))))
    ++ be16_bytes 68
    ++ be16_bytes 67
    ++ be16_bytes udp_length
    ++ (0 ∷ 0 ∷ [])
    ++ dhcp

pub record Offer : Type 0 where
  pub address : Bytes
  pub server : Bytes

abbrev server_of : Bytes → Bytes → Bytes
server_of option packet = if length option == 4 then option else slice packet 26 30

-- The tests of `parseDHCPOffer` up to the options, on the packet
abbrev pub is_reply : Bytes → Bytes → Bool
is_reply packet transaction =
    let header = byte_at packet 14 % 16 * 4 in
    let udp = drop (14 + header) packet in
    let dhcp = drop 8 udp in
    not (
      ltb (length packet) (14 + 20 + 8 + 240)
      || not (be16 packet 12 == 0x0800)
      || ltb header 20
      || ltb (length packet) (14 + header + 8 + 240)
      || not (be16 udp 0 == 67)
      || not (be16 udp 2 == 68)
      || not (byte_at dhcp 0 == 2)
      || not (bytes_eq (slice dhcp 4 8) transaction)
      || not (bytes_eq (slice dhcp 236 240) magic))

unfoldable pub parse_dhcp_offer : Bytes → Bytes → Option Offer
parse_dhcp_offer packet transaction =
    let dhcp = drop 8 (drop (14 + byte_at packet 14 % 16 * 4) packet) in
    let options = parse_dhcp_options (drop 240 dhcp) in
    if is_reply packet transaction
    then (if bytes_eq (option_value options 53) (2 ∷ [])
        then some (record {
          address = slice dhcp 16 20;
          server = server_of (option_value options 54) packet;
        })
        else none)
    else none
