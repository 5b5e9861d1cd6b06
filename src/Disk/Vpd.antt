-- ===== src/Disk/Vpd.antt =====
-- internal/disk/fingerprint.go: the identities in the SCSI vital product data pages 0x83 and 0x80,
-- and the WWN that sysfs reports as a text.
pub mod Best
pub mod Canonical
use mikrotik_chr_script.Common.{
  ℕ, zero, suc, ◌+◌, ◌-◌, ◌*◌, ◌/◌, ◌%◌, Bool, true, false, not, ◌&&◌, ◌||◌, List, [], ◌∷◌, ◌++◌,
  ltb, leb, ◌==◌, if◌then◌else◌, length, slice, drop, any_of, Option, none, some,
}
use mikrotik_chr_script.Common.Bytes.{Bytes, byte_at, be16, all_zero}
use mikrotik_chr_script.Common.Text.{
  codes, trim_space, to_lower, is_empty, trim_prefix, strip_prefix, remove_byte,
}
use mikrotik_chr_script.Disk.Hex.{hex_encode, hex_decode, utf8_valid}

pub record Identity : Type 0 where
  pub serial : Bytes
  pub wwn : Bytes
  pub rank : ℕ

-- The cutset "\x00 \t\r\n"
abbrev is_trimmed : ℕ → Bool
is_trimmed c = c == 0 || c == 32 || c == 9 || c == 13 || c == 10

abbrev trim_left_set : Bytes → Bytes
trim_left_set [] = []
trim_left_set (c ∷ s) = let rest = trim_left_set s in if is_trimmed c then rest else c ∷ s

abbrev trim_right_set : Bytes → Bytes
trim_right_set [] = []
trim_right_set (c ∷ s) =
    let rest = trim_right_set s in
    elim rest [ [] ↦ if is_trimmed c then [] else c ∷ [] | d ∷ r ↦ c ∷ d ∷ r ]

-- A control character is one byte, and no other character has such a byte.
unfoldable pub text_identifier : Bytes → Option Bytes
text_identifier bytes =
    let value = trim_right_set (trim_left_set bytes) in
    if is_empty value || not (utf8_valid value)
    then none
    else if any_of (λ c. ltb c 0x20 || c == 0x7f) value
    then none
    else some value

abbrev pub strip_separators : Bytes → Bytes
strip_separators s = remove_byte b' ' (remove_byte b':' (remove_byte b'-' s))

abbrev strip_prefixes : Bytes → Bytes
strip_prefixes s =
    trim_prefix (codes "0x") (trim_prefix (codes "eui.") (trim_prefix (codes "naa.") s))

abbrev binary : ℕ
binary = 1

abbrev ascii : ℕ
ascii = 2

abbrev vendor_specific : ℕ
vendor_specific = 0

abbrev eui64 : ℕ
eui64 = 2

abbrev naa : ℕ
naa = 3

abbrev pub bound_option {ℓ κ} : {A : Type ℓ} {B : Type κ} → Option A → (A → Option B) → Option B
bound_option none f = none
bound_option (some a) f = f a

abbrev descriptor_value : Bytes → ℕ → Option Bytes
descriptor_value payload code_set =
    if code_set == binary
    then some payload
    else bound_option (text_identifier payload)
        λ text. hex_decode (strip_separators (strip_prefixes (to_lower text)))

-- The digits, and the first nibble.
unfoldable pub descriptor_hex : Bytes → ℕ → Option (Bytes × ℕ)
descriptor_hex payload code_set = bound_option (descriptor_value payload code_set) λ value.
    if length value == 0 || all_zero value
    then none
    else some (hex_encode value, byte_at value 0 / 16)

abbrev naa_rank : ℕ → ℕ
naa_rank naa_type = if naa_type == 6 then 0 else if naa_type == 5 then 2 else 4

abbrev ascii_penalty : ℕ → ℕ
ascii_penalty code_set = if code_set == ascii then 1 else 0

abbrev name_identity : Bytes → ℕ → ℕ → Option Identity
name_identity payload code_set id_type = bound_option (descriptor_hex payload code_set) λ found.
    some (record {
      serial = [];
      wwn = (if id_type == eui64 then codes "eui." else codes "naa.") ++ found.0;
      rank = (if id_type == naa then naa_rank found.1 else 6) + ascii_penalty code_set;
    })

abbrev vendor_identity : Bytes → ℕ → ℕ → Option Identity
vendor_identity payload code_set id_type =
    let base_rank = if id_type == vendor_specific then 10 else 8 in
    let label = if id_type == vendor_specific then codes "vendor" else codes "t10" in
    if code_set == ascii
    then bound_option (text_identifier payload)
        (λ value. some (record { serial = value; wwn = []; rank = base_rank + 1 }))
    else if all_zero payload
    then none
    else some (record {
      serial = codes "vpd83-" ++ label ++ codes "-" ++ hex_encode payload;
      wwn = [];
      rank = base_rank;
    })

unfoldable pub descriptor_identity : Bytes → Option Identity
descriptor_identity descriptor =
    let code_set = byte_at descriptor 0 % 16 in
    let id_type = byte_at descriptor 1 % 16 in
    let payload = drop 4 descriptor in
    if ltb (length descriptor) 5 || not (byte_at descriptor 3 + 4 == length descriptor)
    then none
    else if not (code_set == binary) && not (code_set == ascii)
    then none
    else if ltb naa id_type
    then none
    else if id_type == naa || id_type == eui64
    then name_identity payload code_set id_type
    else vendor_identity payload code_set id_type

abbrev pub push : List Identity → Option Identity → List Identity
push identities none = identities
push identities (some i) = identities ++ i ∷ []

-- The association field: bits 4 and 5 of the second byte
abbrev association : Bytes → ℕ → ℕ
association page offset = byte_at page (offset + 1) / 16 % 4

-- `identities` behind the descriptor from `offset` to `next`
abbrev pub push_descriptor : Bytes → ℕ → ℕ → List Identity → List Identity
push_descriptor page offset next identities =
    if ltb 0 (byte_at page (offset + 3)) && association page offset == 0
    then push identities (descriptor_identity (slice page offset next))
    else identities

pub data Scan : Type 0 where
  malformed stuck : Scan
  found : List Identity → Scan

-- The loop over the descriptors. A round goes on by four bytes at least.
unfoldable pub scan_loop : ℕ → Bytes → ℕ → ℕ → List Identity → Scan
scan_loop zero page end offset identities = stuck
scan_loop (suc fuel) page end offset identities =
    let next = offset + 4 + byte_at page (offset + 3) in
    let rest = scan_loop fuel page end next (push_descriptor page offset next identities) in
    if ltb offset end
    then (if ltb (end - offset) 4 || ltb end next then malformed else rest)
    else found identities

-- `sort.SliceStable` by the rank, and the first element: the first of the lowest rank.
unfoldable pub best : Identity → List Identity → Identity
best i [] = i
best i (j ∷ js) = let rest = best j js in if leb i.rank rest.rank then i else rest

abbrev pub first_ranked : Scan → Option Identity
first_ranked (found (i ∷ is)) = some (best i is)
first_ranked scan = none

unfoldable pub parse_vpd83 : Bytes → Option Identity
parse_vpd83 page =
    let page_length = be16 page 2 in
    let end = 4 + page_length in
    if ltb (length page) 4 || not (byte_at page 1 == 0x83)
    then none
    else if page_length == 0 || ltb (length page - 4) page_length
    then none
    else first_ranked (scan_loop (end + 1) page end 4 [])

unfoldable pub parse_vpd80 : Bytes → Option Bytes
parse_vpd80 page =
    let size = be16 page 2 in
    if ltb (length page) 4 || not (byte_at page 1 == 0x80)
    then none
    else if size == 0 || ltb (length page - 4) size
    then none
    else text_identifier (slice page 4 (4 + size))

-- The prefix that the text begins with, and what stands behind it
abbrev pub wwn_prefix : Bytes → Option (Bytes × Bytes)
wwn_prefix s = elim (strip_prefix (codes "naa.") s) [
  | some rest ↦ some (codes "naa.", rest)
  | none ↦ elim (strip_prefix (codes "eui.") s) [
    | some rest ↦ some (codes "eui.", rest)
    | none ↦ elim (strip_prefix (codes "0x") s) [
      | some rest ↦ some (codes "0x", rest)
      | none ↦ none
    ]
  ]
]

unfoldable pub canonical_wwn : Bytes → Option Bytes
canonical_wwn value = bound_option (wwn_prefix (to_lower (trim_space value))) λ parts.
    bound_option (hex_decode (strip_separators parts.1)) λ decoded.
      if length decoded == 0 || all_zero decoded then none else some (parts.0 ++ hex_encode decoded)
