-- ===== src/Mikrotik/Uefi/Prepared.antt =====
-- On internal/mikrotik/uefi.go: the image that prepareUEFIImage leaves.
use mikrotik_chr_script.Common.{
  ℕ, ◌*◌, ◌%◌, ◌≤◌, ◌<◌, ◌≡◌, inl, inr, refl, ap, ◌∙◌, fun_ext, some, List, [], ◌∷◌, length, All,
  arith, Option-cases, subst,
}
use mikrotik_chr_script.Common.Bytes.{Bytes}
use mikrotik_chr_script.Common.Outcome.{ok}
use mikrotik_chr_script.Mikrotik.Memory.{Memory, blit}
use mikrotik_chr_script.Mikrotik.Loader.{validate_efi_loader, max_efi_map_bytes}
use mikrotik_chr_script.Mikrotik.Mbr.{
  Partition, Layout, sector_size, official_boot_start_sector, official_boot_sectors, by_index,
  inspect,
}
use mikrotik_chr_script.Mikrotik.Mbr.Disjoint.{IsInside, inspect-ok}
use mikrotik_chr_script.Mikrotik.Gpt.{validate_official_uefi_gpt}
use mikrotik_chr_script.Mikrotik.Gpt.Frame.{SameOutside, validate_official_uefi_gpt-same}
use mikrotik_chr_script.Mikrotik.Gpt.Checked.{validate_official_uefi_gpt-ok}
use mikrotik_chr_script.Mikrotik.FatCheck.{validate_uefi_fat16}
use mikrotik_chr_script.Mikrotik.FatWriter.{build_uefi_fat16}
use mikrotik_chr_script.Mikrotik.FatWriter.RoundTrip.{build_uefi_fat16_total}
use mikrotik_chr_script.Mikrotik.Uefi.{
  BootFs, ImageIo, all_succeed, read_mounted, read_uefi_boot_files, read_at, prepare_uefi_image,
}

-- The boot files that `read_uefi_boot_files` returns pass the checks of `buildUEFIFAT16`.
pub read_uefi_boot_files-ok :
    (fs : BootFs) {loader map_bytes : Bytes}
    → read_uefi_boot_files fs ≡ ok (loader, map_bytes)
    → (validate_efi_loader loader ≡ ok tt)
      × (0 < length map_bytes)
      × (length map_bytes ≤ max_efi_map_bytes)
      × (length map_bytes % 4 ≡ 0)
unfolding read_uefi_boot_files read_mounted
read_uefi_boot_files-ok fs e = ground arith

by_index-All :
    (P : Partition → Type 0) (i : ℕ) (ps : List Partition) {p : Partition}
    → All P ps
    → by_index i ps ≡ some p
    → P p
by_index-All P i [] h e = cc
by_index-All P i (q ∷ qs) {p} h e = elim (Option-cases (by_index i qs)) [
  | inl none_eq ↦ subst P (ground arith) h.0
  | inr (found, eq) ↦ by_index-All P i qs h.1 (ground arith)
]

-- A write to the official boot partition stays within it.
pub blit-SameOutside :
    (image esp : Memory) (p : Partition)
    → p.offset_bytes ≡ official_boot_start_sector * sector_size
    → p.sectors ≡ official_boot_sectors
    → SameOutside image (blit image p.offset_bytes (p.sectors * sector_size) esp)
blit-SameOutside image esp p start count j out = ground arith

-- What was written is read back.
read_at-blit :
    (image esp : Memory) (off n : ℕ)
    → ((j : ℕ) → n ≤ j → esp j ≡ 0)
    → read_at (blit image off n esp) off n ≡ esp
read_at-blit image esp off n beyond = fun_ext λ j. ground (arith, beyond j)

-- On an image that `Inspect` and the GPT validation accept, with boot files that pass their checks,
-- and where the calls on the image file succeed, the preparation succeeds; the image differs only
-- within the boot partition, still passes the GPT validation, and its boot partition is a FAT16
-- volume that holds the two files.
pub prepare_uefi_image_total :
    (crc32 : Bytes → ℕ) (sha256 : Bytes → Bytes) (fs : BootFs) (io : ImageIo) (image : Memory)
    (size : ℕ) {layout : Layout} {boot : Partition} {loader map_bytes : Bytes}
    → inspect image size ≡ ok layout
    → validate_official_uefi_gpt crc32 image size layout ≡ ok boot
    → read_uefi_boot_files fs ≡ ok (loader, map_bytes)
    → io ≡ all_succeed
    → (prepared : Memory) × (prepare_uefi_image crc32 sha256 fs io image size layout ≡ ok prepared)
      × SameOutside image prepared
      × (validate_official_uefi_gpt crc32 prepared size layout ≡ ok boot)
      × (validate_uefi_fat16
            (read_at prepared boot.offset_bytes (boot.sectors * sector_size))
            (boot.sectors * sector_size)
            boot.start_sector
            boot.sectors
            loader
            map_bytes
          ≡ ok tt)
unfolding prepare_uefi_image
prepare_uefi_image_total crc32 sha256 fs io image size {layout} {boot} {loader} {map_bytes}
      inspected valid files io_ok =
    let (size_ok, found, start, count) =
      validate_official_uefi_gpt-ok crc32 image size layout valid in
    let (inside, apart, some_parts, bound) = inspect-ok image size inspected in
    let boot_inside = by_index-All (IsInside size) 1 layout.partitions inside found in
    let offset : boot.offset_bytes ≡ official_boot_start_sector * sector_size =
      boot_inside.offset_ok ∙ ap (λ s. s * sector_size) start in
    let (good, some_bytes, small, words) = read_uefi_boot_files-ok fs files in
    let (esp, built, checked, beyond) =
      build_uefi_fat16_total sha256 loader map_bytes good some_bytes small words in
    let prepared = blit image boot.offset_bytes (boot.sectors * sector_size) esp in
    let same : SameOutside image prepared = blit-SameOutside image esp boot offset count in
    let again = validate_official_uefi_gpt-same crc32 image prepared size layout same valid in
    let bytes : boot.sectors * sector_size ≡ official_boot_sectors * sector_size =
      ap (λ s. s * sector_size) count in
    let back : read_at prepared boot.offset_bytes (boot.sectors * sector_size) ≡ esp =
      read_at-blit image esp boot.offset_bytes (boot.sectors * sector_size)
        (λ j le. beyond j (omega arith)) in
    let fat : validate_uefi_fat16 (read_at prepared boot.offset_bytes (boot.sectors * sector_size))
          (boot.sectors * sector_size) boot.start_sector boot.sectors loader map_bytes
        ≡ ok tt =
      rw (back, start, count) checked in
    let built' : build_uefi_fat16 sha256 boot.start_sector boot.sectors loader map_bytes ≡ ok esp =
      rw (start, count) built in
    (prepared, rw (valid, files, built', io_ok, again, fat) refl, same, again, fat)
