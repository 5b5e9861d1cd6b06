-- ===== src/Mikrotik/FatWriter/RoundTrip.antt =====
-- On internal/mikrotik/fat16.go: buildUEFIFAT16 and the validation of what it builds.
use mikrotik_chr_script.Common.{
  ℕ, ◌+◌, ◌-◌, ◌*◌, ◌%◌, ◌≤◌, ◌<◌, ◌≡◌, refl, ◌⊎◌, inl, inr, length, arith, ap, ◌∙◌, false,
}
use mikrotik_chr_script.Common.Bytes.{Bytes, byte_at, bytes_eq_self}
use mikrotik_chr_script.Common.Outcome.{ok}
use mikrotik_chr_script.Mikrotik.Memory.{
  Memory, read_bytes, read_bytes-bytes, length-read_bytes, take-read_bytes, byte_at-read_bytes,
}
use mikrotik_chr_script.Mikrotik.Loader.{
  validate_efi_loader, max_efi_map_bytes, validate_efi_loader_bounds,
}
use mikrotik_chr_script.Mikrotik.FatReader.{
  View, root_offset, cluster_offset, cluster_bytes, sub_slice, bytes_per_sector, name_efi,
  name_boot, name_loader, name_map, find_directory_entry, read_chain, read_file,
}
use mikrotik_chr_script.Mikrotik.FatReader.Chain.{IsRun, read_chain-run}
use mikrotik_chr_script.Mikrotik.FatReader.Find.{
  HasEntry, HasEntry-cong, find_from-HasEntry, find_from-other, find_from-label,
}
use mikrotik_chr_script.Mikrotik.FatCheck.{validate_uefi_fat16}
use mikrotik_chr_script.Mikrotik.Mbr.{official_boot_start_sector, official_boot_sectors}
use mikrotik_chr_script.Mikrotik.FatWriter.{Volume, clusters_of, build_uefi_fat16, bad_map}
use mikrotik_chr_script.Mikrotik.FatWriter.Allocate.{clusters_of_bounds}
use mikrotik_chr_script.Mikrotik.FatWriter.Files.{Fits, HasFiles, map_first, allocate_all_lem}
use mikrotik_chr_script.Mikrotik.FatWriter.Entries
use mikrotik_chr_script.Mikrotik.FatWriter.Parsed.{
  final, final_view, image-HasEntry, image-beyond, image-loader, image-map, parse_image,
  directory-IsRun, loader-IsRun, map-IsRun,
}

-- A file whose bytes stand in the clusters of a run is read whole.
read_file-run :
    (view : View) (c k attributes : ℕ) (content : Bytes)
    → IsRun view c k
    → 0 < length content
    → length content ≤ (k + 1) * cluster_bytes
    → ((i : ℕ) → i < length content → view.image (cluster_offset c + i) ≡ byte_at content i)
    → read_file view (record { attributes = attributes; cluster = c; size = length content })
      ≡ ok content
unfolding read_file
read_file-run view c k attributes content r some_bytes fits same = ground (
  arith,
  read_chain-run view c k r,
  length-read_bytes view.image (cluster_offset c) ((k + 1) * cluster_bytes),
  take-read_bytes view.image (cluster_offset c) ((k + 1) * cluster_bytes) (length content) fits,
  read_bytes-bytes view.image (cluster_offset c) content same,
)

-- A directory of one cluster, as the list that `readChain` returns
slice-HasEntry :
    (m : Memory) (base : ℕ) {off : ℕ} {name : Bytes} {attributes cluster size : ℕ}
    → off + 32 ≤ cluster_bytes
    → HasEntry m (base + off) name attributes cluster size
    → HasEntry (byte_at (read_bytes m base cluster_bytes)) off name attributes cluster size
slice-HasEntry m base {off} within h =
    HasEntry-cong
      (λ i lt. byte_at-read_bytes m base cluster_bytes (off + i) (omega arith) ∙ ap m (omega arith))
      h

module _ (sha256 : Bytes → Bytes) {loader map_bytes : Bytes} (f : Fits loader map_bytes)
    {v : Volume} (files : HasFiles loader map_bytes v) where
  abbrev image : Memory
  image = final sha256 loader map_bytes v

  abbrev view : View
  view = final_view sha256 loader map_bytes v

  abbrev directory : ℕ → Memory
  directory c = byte_at (read_bytes image (cluster_offset c) cluster_bytes)

  root_slice :
      {off : ℕ} {name : Bytes} {attributes cluster size : ℕ}
      → HasEntry image (root_offset + off) name attributes cluster size
      → HasEntry (sub_slice image root_offset) off name attributes cluster size
  root_slice {off} h = HasEntry-cong (λ i lt. ap image (omega arith)) h

  find_efi :
      find_directory_entry view.root view.root_size name_efi
      ≡ ok (record { attributes = 0x10; cluster = 2; size = 0 })
  unfolding find_directory_entry
  find_efi =
      find_from-label
        (root_slice (image-HasEntry sha256 f files (omega arith) (Entries.root_volume _ _ _ _ _)))
        name_efi 511 (omega arith) refl
      ∙ find_from-HasEntry
          (root_slice (image-HasEntry sha256 f files (omega arith) (Entries.root_efi _ _ _ _ _)))
          510 (omega arith) (omega arith) (omega arith)

  find_map :
      find_directory_entry view.root view.root_size name_map
      ≡ ok (record { attributes = 0x20; cluster = map_first loader; size = length map_bytes })
  unfolding find_directory_entry
  find_map =
      find_from-label
        (root_slice (image-HasEntry sha256 f files (omega arith) (Entries.root_volume _ _ _ _ _)))
        name_map 511 (omega arith) refl
      ∙ find_from-other
          (root_slice (image-HasEntry sha256 f files (omega arith) (Entries.root_efi _ _ _ _ _)))
          name_map 510 (omega arith) refl
      ∙ find_from-HasEntry
          (root_slice (
            image-HasEntry sha256 f files (omega arith) (
              Entries.root_map _ _ (map_first loader) _ (length map_bytes) (omega (arith, f))
                (omega (arith, f)))))
          509 (omega arith) (omega arith) (omega arith)

  find_boot :
      find_directory_entry (directory 2) cluster_bytes name_boot
      ≡ ok (record { attributes = 0x10; cluster = 3; size = 0 })
  unfolding find_directory_entry
  find_boot =
      find_from-other
        (slice-HasEntry image (cluster_offset 2) (omega arith)
          (image-HasEntry sha256 f files (omega arith) (Entries.efi_current _ _ _ _ _)))
        name_boot 63 (omega arith) refl
      ∙ find_from-other
          (slice-HasEntry image (cluster_offset 2) (omega arith)
            (image-HasEntry sha256 f files (omega arith) (Entries.efi_parent _ _ _ _ _)))
          name_boot 62 (omega arith) refl
      ∙ find_from-HasEntry
          (slice-HasEntry image (cluster_offset 2) (omega arith)
            (image-HasEntry sha256 f files (omega arith) (Entries.efi_boot _ _ _ _ _)))
          61 (omega arith) (omega arith) (omega arith)

  find_loader :
      find_directory_entry (directory 3) cluster_bytes name_loader
      ≡ ok (record { attributes = 0x20; cluster = 4; size = length loader })
  unfolding find_directory_entry
  find_loader =
      find_from-other
        (slice-HasEntry image (cluster_offset 3) (omega arith)
          (image-HasEntry sha256 f files (omega arith) (Entries.boot_current _ _ _ _ _)))
        name_loader 63 (omega arith) refl
      ∙ find_from-other
          (slice-HasEntry image (cluster_offset 3) (omega arith)
            (image-HasEntry sha256 f files (omega arith) (Entries.boot_parent _ _ _ _ _)))
          name_loader 62 (omega arith) refl
      ∙ find_from-HasEntry
          (slice-HasEntry image (cluster_offset 3) (omega arith) (
            image-HasEntry sha256 f files (omega arith)
              (Entries.boot_loader _ _ _ (length loader) _ (omega (arith, f)))))
          61 (omega arith) (omega arith) (omega arith)

  directory_chain :
      (c : ℕ)
      → (c ≡ 2) ⊎ (c ≡ 3)
      → read_chain view c ≡ ok (read_bytes image (cluster_offset c) cluster_bytes)
  directory_chain c which = read_chain-run view c 0 (directory-IsRun sha256 f files c which)

  loader_read :
      read_file view (record { attributes = 0x20; cluster = 4; size = length loader }) ≡ ok loader
  loader_read =
      read_file-run view 4 (clusters_of (length loader) - 1) 0x20 loader
        (loader-IsRun sha256 f files) f.loader_some
        (omega (arith, f, clusters_of_bounds (length loader))) (image-loader sha256 f files)

  map_read :
      read_file view
        (record { attributes = 0x20; cluster = map_first loader; size = length map_bytes })
      ≡ ok map_bytes
  map_read =
      read_file-run view (map_first loader) (clusters_of (length map_bytes) - 1) 0x20 map_bytes
        (map-IsRun sha256 f files) f.map_some
        (omega (arith, f, clusters_of_bounds (length map_bytes))) (image-map sha256 f files)

  -- The image passes the validation that reads both files back.
  pub validate_image :
      validate_uefi_fat16 image
        (official_boot_sectors * bytes_per_sector)
        official_boot_start_sector
        official_boot_sectors
        loader
        map_bytes
      ≡ ok tt
  unfolding validate_uefi_fat16
  validate_image =
      rw
        (
          parse_image sha256 f files,
          find_efi,
          directory_chain 2 (inl refl),
          length-read_bytes image (cluster_offset 2) cluster_bytes,
          find_boot,
          directory_chain 3 (inr refl),
          length-read_bytes image (cluster_offset 3) cluster_bytes,
          find_loader,
          loader_read,
          bytes_eq_self loader,
          find_map,
          map_read,
          bytes_eq_self map_bytes,
        )
        refl

Fits-of_checks :
    (loader map_bytes : Bytes)
    → validate_efi_loader loader ≡ ok tt
    → 0 < length map_bytes
    → length map_bytes ≤ max_efi_map_bytes
    → Fits loader map_bytes
Fits-of_checks loader map_bytes good some_bytes small =
    let (low, high) = validate_efi_loader_bounds loader good in
    record { loader_some = omega arith; loader_max = high; map_some = some_bytes; map_max = small }

-- On a loader and a map that pass the checks in front, `buildUEFIFAT16` succeeds: the allocations fit
-- and its own validation, which reads both files back, accepts the image. Nothing is written behind
-- its last sector.
pub build_uefi_fat16_total :
    (sha256 : Bytes → Bytes) (loader map_bytes : Bytes)
    → validate_efi_loader loader ≡ ok tt
    → 0 < length map_bytes
    → length map_bytes ≤ max_efi_map_bytes
    → length map_bytes % 4 ≡ 0
    → (image : Memory) × (build_uefi_fat16 sha256 official_boot_start_sector official_boot_sectors
          loader map_bytes
        ≡ ok image)
      × (validate_uefi_fat16 image
            (official_boot_sectors * bytes_per_sector)
            official_boot_start_sector
            official_boot_sectors
            loader
            map_bytes
          ≡ ok tt)
      × ((j : ℕ) → official_boot_sectors * bytes_per_sector ≤ j → image j ≡ 0)
unfolding build_uefi_fat16
build_uefi_fat16_total sha256 loader map_bytes good some_bytes small words =
    let (v, placed_ok, files) =
      allocate_all_lem (Fits-of_checks loader map_bytes good some_bytes small) in
    let f : Fits loader map_bytes = Fits-of_checks loader map_bytes good some_bytes small in
    let sizes : bad_map map_bytes ≡ false = ground arith in
    let checked = validate_image sha256 f files in
    (
      final sha256 loader map_bytes v,
      rw (good, sizes, placed_ok, checked) refl,
      checked,
      image-beyond sha256 f files,
    )
