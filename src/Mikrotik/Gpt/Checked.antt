-- ===== src/Mikrotik/Gpt/Checked.antt =====
-- On internal/mikrotik/gpt.go: the images that validateOfficialUEFIGPT accepts.
use mikrotik_chr_script.Common.{ℕ, ◌*◌, ◌≡◌, not, some, ◌==◌, arith}
use mikrotik_chr_script.Common.Bytes.{Bytes}
use mikrotik_chr_script.Common.Outcome.{ok, reject_if, wrap_err, >>=-eq-ok}
use mikrotik_chr_script.Mikrotik.Memory.{Memory}
use mikrotik_chr_script.Mikrotik.Mbr.{
  Partition, Layout, sector_size, validate_official_mbr_layout, official_boot_start_sector,
  official_boot_sectors, by_index,
}
use mikrotik_chr_script.Mikrotik.Gpt.{
  Metadata, read_gpt_metadata, check_official_gpt, validate_official_uefi_gpt,
  official_chr_image_sectors, mbr_error, wrong_image_size,
}

validate_official_mbr_layout-ok :
    (layout : Layout) {boot system : Partition}
    → validate_official_mbr_layout layout ≡ ok (boot, system)
    → (by_index 1 layout.partitions ≡ some boot)
      × (boot.start_sector ≡ official_boot_start_sector)
      × (boot.sectors ≡ official_boot_sectors)
unfolding validate_official_mbr_layout
validate_official_mbr_layout-ok layout e = ground arith

check_official_gpt-boot :
    (boot system : Partition) (primary backup : Metadata) {p : Partition}
    → check_official_gpt boot system primary backup ≡ ok p
    → boot ≡ p
unfolding check_official_gpt
check_official_gpt-boot boot system primary backup e = ground arith

-- An image that passes has the official size, and the partition returned is the first of its MBR
-- table, at the official place.
pub validate_official_uefi_gpt-ok :
    (crc32 : Bytes → ℕ) (image : Memory) (size : ℕ) (layout : Layout) {p : Partition}
    → validate_official_uefi_gpt crc32 image size layout ≡ ok p
    → (size ≡ official_chr_image_sectors * sector_size)
      × (by_index 1 layout.partitions ≡ some p)
      × (p.start_sector ≡ official_boot_start_sector)
      × (p.sectors ≡ official_boot_sectors)
unfolding validate_official_uefi_gpt
validate_official_uefi_gpt-ok crc32 image size layout e =
    let sectors : ℕ = official_chr_image_sectors in
    let (parts, mbr, e1) =
      >>=-eq-ok (wrap_err mbr_error (validate_official_mbr_layout layout)) _ e in
    let (u, right_size, e2) =
      >>=-eq-ok
        (reject_if (not (size == official_chr_image_sectors * sector_size)) wrong_image_size) _
        e1 in
    let (primary, p1, e3) = >>=-eq-ok (read_gpt_metadata crc32 image size 1 sectors) _ e2 in
    let (backup, p2, e4) =
      >>=-eq-ok (read_gpt_metadata crc32 image size primary.backup_lba sectors) _ e3 in
    let first = check_official_gpt-boot parts.0 parts.1 primary backup e4 in
    let mbr_ok : validate_official_mbr_layout layout ≡ ok (parts.0, parts.1) = ground arith in
    let (found, start, count) = validate_official_mbr_layout-ok layout mbr_ok in
    rw (← first) (ground arith, found, start, count)
