-- ===== src/Disk/Tests.antt =====
-- Concrete disks and pages on which the theorems on internal/disk are applied.
use mikrotik_chr_script.Common.{◌+◌, ◌≡◌, ◌⊎◌, inl, refl, true, List, [], ◌∷◌, some}
use mikrotik_chr_script.Common.Bytes.{Bytes, be16}
use mikrotik_chr_script.Common.Text.{codes}
use mikrotik_chr_script.Common.Outcome.{ok}
use mikrotik_chr_script.Disk.Fingerprint.{
  Fingerprint, fingerprints_match, has_stable_identity, normalize_identity,
  select_authorized_fingerprint,
}
use mikrotik_chr_script.Disk.Fingerprint.Authorized.{
  IsOnly, select_authorized_fingerprint-ok, select_authorized_fingerprint_total,
}
use mikrotik_chr_script.Disk.Hex.{hex_encode, hex_decode, utf8_from}
use mikrotik_chr_script.Disk.Vpd.{
  Identity, scan_loop, found, parse_vpd83, best, descriptor_identity, descriptor_hex,
  text_identifier,
}
use mikrotik_chr_script.Disk.Vpd.Best.{IsBest, parse_vpd83-IsBest}

abbrev a_disk : Bytes → Bytes → Fingerprint
a_disk name wwn = record {
  path = name;
  kernel_name = name;
  major_minor = codes "8:0";
  size_bytes = 1000;
  model = [];
  serial = [];
  wwn = wwn;
  transport = [];
  driver = codes "sd";
}

-- The authorized disk, and the same one under another name and another spelling, beside a second one
abbrev authorized : Fingerprint
authorized = a_disk (codes "sda") (codes "naa.50-01")

abbrev same_disk : Fingerprint
same_disk = a_disk (codes "sdb") (codes "0x5001")

abbrev other_disk : Fingerprint
other_disk = a_disk (codes "sda") (codes "naa.5002")

select_example :
    select_authorized_fingerprint authorized (other_disk ∷ same_disk ∷ []) ≡ ok same_disk
unfolding select_authorized_fingerprint fingerprints_match has_stable_identity normalize_identity
select_example = refl

select-ok_example :
    IsOnly (fingerprints_match authorized) same_disk (other_disk ∷ same_disk ∷ [])
    × ((has_stable_identity authorized ≡ true) ⊎ (other_disk ∷ same_disk ∷ [] ≡ same_disk ∷ []))
select-ok_example =
    select_authorized_fingerprint-ok authorized (other_disk ∷ same_disk ∷ []) select_example

same_disk-IsOnly : IsOnly (fingerprints_match authorized) same_disk (other_disk ∷ same_disk ∷ [])
unfolding fingerprints_match normalize_identity
same_disk-IsOnly = record {
  before = other_disk ∷ [];
  after = [];
  split_eq = refl;
  passes = refl;
  none_before = (refl, tt);
  none_after = tt;
}

authorized_stable : has_stable_identity authorized ≡ true
unfolding has_stable_identity
authorized_stable = refl

select_total_example :
    select_authorized_fingerprint authorized (other_disk ∷ same_disk ∷ []) ≡ ok same_disk
select_total_example =
    select_authorized_fingerprint_total authorized (other_disk ∷ same_disk ∷ []) same_disk-IsOnly
      (inl authorized_stable)

-- An EUI-64 and a NAA designator of type 5, each of eight bytes
abbrev a_page : Bytes
a_page =
    0 ∷ 0x83 ∷ 0 ∷ 24 ∷ 1 ∷ 2 ∷ 0 ∷ 8 ∷ 1 ∷ 1 ∷ 1 ∷ 1 ∷ 1 ∷ 1 ∷ 1 ∷ 1 ∷ 1 ∷ 3 ∷ 0 ∷ 8 ∷ 0x50 ∷ 0 ∷ 0
    ∷ 0 ∷ 0 ∷ 0 ∷ 0 ∷ 7 ∷ []

abbrev naa_identity : Identity
naa_identity = record { serial = []; wwn = codes "naa.5000000000000007"; rank = 2 }

page_parsed : parse_vpd83 a_page ≡ some naa_identity
unfolding parse_vpd83 scan_loop best descriptor_identity descriptor_hex text_identifier hex_encode
    hex_decode utf8_from
page_parsed = refl

page-IsBest_example :
    (is : List Identity) × (scan_loop (4 + be16 a_page 2 + 1) a_page (4 + be16 a_page 2) 4 []
      ≡ found is)
    × IsBest naa_identity is
page-IsBest_example = parse_vpd83-IsBest a_page page_parsed
