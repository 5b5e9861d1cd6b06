-- ===== src/Network/Address.antt =====
-- The addresses and prefixes of package net/netip, as far as internal/network reads them.
-- What net.ParseMAC, netip.ParsePrefix and netip.ParseAddr make of a text is a parameter, `Parsers`.
use mikrotik_chr_script.Common.{
  ℕ, ◌-◌, ◌/◌, ◌^◌, Bool, true, false, ◌&&◌, [], ◌∷◌, ◌++◌, ◌==◌, leb, if◌then◌else◌, length,
  Option,
}
use mikrotik_chr_script.Common.Bytes.{Bytes, bytes_eq}
use mikrotik_chr_script.Common.Text.{is_empty}

-- An address: its 4 or 16 bytes and its zone. `text` is how `String` writes it without a zone.
pub record Addr : Type 0 where
  pub bytes : Bytes
  pub zone : Bytes
  pub text : Bytes
  pub is4 : Bool
  pub is6 : Bool
  pub is_link_local_unicast : Bool
  pub is_loopback : Bool
  pub is_unspecified : Bool

-- A prefix; `text` is how `String` writes it.
pub record Prefix : Type 0 where
  pub addr : Addr
  pub bits : ℕ
  pub text : Bytes

-- A hardware address: its bytes, and how `String` writes it.
pub record HardwareAddr : Type 0 where
  pub len : ℕ
  pub text : Bytes

-- `none` is an error.
pub record Parsers : Type 0 where
  pub parse_mac : Bytes → Option HardwareAddr
  pub parse_prefix : Bytes → Option Prefix
  pub parse_addr : Bytes → Option Addr

-- `a.WithZone(zone)`: only an IPv6 address has a zone.
abbrev pub with_zone : Bytes → Addr → Addr
with_zone zone a = if a.is6 then record a { zone = zone } else a

-- `a.String()`
abbrev pub addr_string : Addr → Bytes
addr_string a = if is_empty a.zone then a.text else a.text ++ b'%' ∷ a.zone

-- `a.WithZone("") == b.WithZone("")`
abbrev pub same_addr : Addr → Addr → Bool
same_addr a b = bytes_eq a.bytes b.bytes

-- Whether the first bits of two addresses are the same.
abbrev pub same_bits : ℕ → Bytes → Bytes → Bool
same_bits n [] [] = true
same_bits n [] (y ∷ ys) = false
same_bits n (x ∷ xs) [] = false
same_bits n (x ∷ xs) (y ∷ ys) =
    let rest = same_bits (n - 8) xs ys in
    if leb 8 n then x == y && rest else x / 2 ^ (8 - n) == y / 2 ^ (8 - n)

-- `p.Contains(a)`: an address with a zone or of the other family is in no prefix.
abbrev pub prefix_contains : Prefix → Addr → Bool
prefix_contains p a =
    is_empty a.zone
    && length p.addr.bytes == length a.bytes
    && same_bits p.bits p.addr.bytes a.bytes
