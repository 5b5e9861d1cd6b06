-- ===== src/Mikrotik/Gpt/Frame.antt =====
-- On internal/mikrotik/gpt.go: the tables under a write to the boot partition.
use mikrotik_chr_script.Common.{
  ℕ, ◌+◌, ◌*◌, ◌≤◌, ◌<◌, ◌≡◌, ◌⊎◌, refl, subst, not, ltb, leb, ◌==◌, arith,
}
use mikrotik_chr_script.Common.Bytes.{Bytes}
use mikrotik_chr_script.Common.Outcome.{ok, reject_if, wrap_err, >>=-eq-ok}
use mikrotik_chr_script.Mikrotik.Memory.{Memory, read_bytes, read_bytes-cong}
use mikrotik_chr_script.Mikrotik.Mbr.{
  Partition, Layout, sector_size, validate_official_mbr_layout, official_boot_start_sector,
  official_boot_sectors,
}
use mikrotik_chr_script.Mikrotik.Gpt.{
  Header, Metadata, parse_gpt_header, load_table, read_gpt_metadata, validate_official_gpt_headers,
  check_official_gpt, validate_official_uefi_gpt, official_gpt_entries, official_gpt_entry_size,
  official_gpt_primary_table, official_gpt_backup_table, official_gpt_backup_header,
  official_chr_image_sectors, header_outside, read_failed, mbr_error, wrong_image_size,
}

-- Same bytes outside the boot partition
abbrev pub SameOutside : Memory → Memory → Type 0
SameOutside m k =
    (j : ℕ)
    → (j < official_boot_start_sector * sector_size)
      ⊎ ((official_boot_start_sector + official_boot_sectors) * sector_size ≤ j)
    → m j ≡ k j

abbrev Outside : ℕ → ℕ → Type 0
Outside off n =
    (off + n ≤ official_boot_start_sector * sector_size)
    ⊎ ((official_boot_start_sector + official_boot_sectors) * sector_size ≤ off)

read_bytes-same :
    {m k : Memory} (off n : ℕ)
    → SameOutside m k
    → Outside off n
    → read_bytes m off n ≡ read_bytes k off n
read_bytes-same {m} {k} off n same out =
    read_bytes-cong m k off off n (λ i lt. same (off + i) (omega arith))

load_table-header :
    (crc32 : Bytes → ℕ) (image : Memory) (size : ℕ) (h : Header) {m : Metadata}
    → load_table crc32 image size h ≡ ok m
    → m.header ≡ h
unfolding load_table
load_table-header crc32 image size h e = ground arith

load_table-same :
    (crc32 : Bytes → ℕ) {m k : Memory} (size : ℕ) (h : Header)
    → SameOutside m k
    → Outside (h.entry_lba * sector_size) (h.entry_count * h.entry_size)
    → load_table crc32 m size h ≡ load_table crc32 k size h
unfolding load_table
load_table-same crc32 size h same out = rw (read_bytes-same _ _ same out) refl

-- A table that was read is read again, with the same result, if it stands outside.
read_gpt_metadata-same :
    (crc32 : Bytes → ℕ) {m k : Memory} (size lba disk_sectors : ℕ) {meta : Metadata}
    → SameOutside m k
    → Outside (lba * sector_size) sector_size
    → read_gpt_metadata crc32 m size lba disk_sectors ≡ ok meta
    → Outside (meta.entry_lba * sector_size) (meta.entry_count * meta.entry_size)
    → read_gpt_metadata crc32 k size lba disk_sectors ≡ ok meta
unfolding read_gpt_metadata
read_gpt_metadata-same crc32 {m} {k} size lba disk_sectors {meta} same out e table_out =
    let (u, inside, e1) = >>=-eq-ok (reject_if (leb disk_sectors lba) header_outside) _ e in
    let (u', read, e2) =
      >>=-eq-ok (reject_if (ltb size (lba * sector_size + sector_size)) read_failed) _ e1 in
    let (h, parsed, loaded) =
      >>=-eq-ok
        (parse_gpt_header crc32 (read_bytes m (lba * sector_size) sector_size) lba disk_sectors) _
        e2 in
    let header : meta.header ≡ h = load_table-header crc32 m size h loaded in
    let tables = load_table-same crc32 size h same (
      subst (λ (t : Header). Outside (t.entry_lba * sector_size) (t.entry_count * t.entry_size))
        header table_out) in
    rw (inside, read, ← read_bytes-same (lba * sector_size) sector_size same out, parsed, ← tables)
      loaded

-- The metadata that the header checks accept: the places of the official image.
official_places :
    (primary backup : Header) {u : Unit {0}}
    → validate_official_gpt_headers primary backup ≡ ok u
    → (primary.backup_lba ≡ official_gpt_backup_header)
      × (primary.entry_lba ≡ official_gpt_primary_table)
      × (primary.entry_count ≡ official_gpt_entries)
      × (primary.entry_size ≡ official_gpt_entry_size)
      × (backup.entry_lba ≡ official_gpt_backup_table)
      × (backup.entry_count ≡ official_gpt_entries)
      × (backup.entry_size ≡ official_gpt_entry_size)
unfolding validate_official_gpt_headers
official_places primary backup e = ground arith

check_official_gpt-headers :
    (boot system : Partition) (primary backup : Metadata) {p : Partition}
    → check_official_gpt boot system primary backup ≡ ok p
    → validate_official_gpt_headers primary.header backup.header ≡ ok tt
unfolding check_official_gpt
check_official_gpt-headers boot system primary backup e =
    (>>=-eq-ok (validate_official_gpt_headers primary.header backup.header) _ e).1

-- An image that passes the GPT validation still passes it, with the same boot partition, whatever is
-- written to the sectors of that partition.
pub validate_official_uefi_gpt-same :
    (crc32 : Bytes → ℕ) (m k : Memory) (size : ℕ) (layout : Layout) {p : Partition}
    → SameOutside m k
    → validate_official_uefi_gpt crc32 m size layout ≡ ok p
    → validate_official_uefi_gpt crc32 k size layout ≡ ok p
unfolding validate_official_uefi_gpt
validate_official_uefi_gpt-same crc32 m k size layout same e =
    let sectors : ℕ = official_chr_image_sectors in
    let (parts, mbr, e1) =
      >>=-eq-ok (wrap_err mbr_error (validate_official_mbr_layout layout)) _ e in
    let (u, right_size, e2) =
      >>=-eq-ok
        (reject_if (not (size == official_chr_image_sectors * sector_size)) wrong_image_size) _
        e1 in
    let (primary, p1, e3) = >>=-eq-ok (read_gpt_metadata crc32 m size 1 sectors) _ e2 in
    let (backup, p2, e4) =
      >>=-eq-ok (read_gpt_metadata crc32 m size primary.backup_lba sectors) _ e3 in
    let checked = check_official_gpt-headers parts.0 parts.1 primary backup e4 in
    let places = official_places primary.header backup.header checked in
    let primary_again =
      read_gpt_metadata-same crc32 size 1 sectors same (omega arith) p1 (ground arith) in
    let backup_again =
      read_gpt_metadata-same crc32 size primary.backup_lba sectors same (ground arith) p2
        (ground arith) in
    rw (mbr, right_size, primary_again, backup_again) e4
