-- ===== src/Mikrotik/FatWriter/Parsed.antt =====
-- On internal/mikrotik/fat16.go: the new image, as parseFAT16 and the readers see it.
use mikrotik_chr_script.Common.{
  ℕ, ◌+◌, ◌-◌, ◌*◌, ◌≤◌, ◌<◌, ◌≡◌, refl, ◌⊎◌, length, arith, ◌∙◌, true,
}
use mikrotik_chr_script.Common.Bytes.{Bytes, byte_at}
use mikrotik_chr_script.Common.Outcome.{ok}
use mikrotik_chr_script.Mikrotik.Memory.{Memory, mem16}
use mikrotik_chr_script.Mikrotik.FatReader.{
  View, root_offset, root_bytes, first_fat_offset, fat_bytes, cluster_offset, sub_slice,
  parse_fat16, bytes_per_sector, boot_parameters_ok, tables_ok,
}
use mikrotik_chr_script.Mikrotik.FatReader.Chain.{IsRun}
use mikrotik_chr_script.Mikrotik.FatReader.Find.{HasEntry, HasEntry-cong}
use mikrotik_chr_script.Mikrotik.Mbr.{official_boot_start_sector, official_boot_sectors}
use mikrotik_chr_script.Mikrotik.FatWriter.{
  Volume, fill_image, clusters_of, write_boot_sector, write_directories, fat_entries,
}
use mikrotik_chr_script.Mikrotik.FatWriter.Files.{Fits, HasFiles, map_first, official_clusters}
use mikrotik_chr_script.Mikrotik.FatWriter.Entries.{placed, write_directories-else}
use mikrotik_chr_script.Mikrotik.FatWriter.Tables.{
  write_tables-else, write_tables-same, write_tables-entry,
}
use mikrotik_chr_script.Mikrotik.FatWriter.BootSector.{
  write_boot_sector-parameters, write_boot_sector-else, boot_parameters_ok-cong,
}

abbrev pub final : (Bytes → Bytes) → Bytes → Bytes → Volume → Memory
final sha256 loader map_bytes v =
    fill_image sha256 official_boot_start_sector official_boot_sectors loader map_bytes
      (placed v (map_first loader))

abbrev pub final_view : (Bytes → Bytes) → Bytes → Bytes → Volume → View
final_view sha256 loader map_bytes v =
    let image = final sha256 loader map_bytes v in
    record {
      image = image;
      fat = sub_slice image first_fat_offset;
      fat_size = fat_bytes;
      root = sub_slice image root_offset;
      root_size = root_bytes;
      data_cluster_count = official_clusters;
    }

module _ (sha256 : Bytes → Bytes) {loader map_bytes : Bytes} (f : Fits loader map_bytes)
    {v : Volume} (files : HasFiles loader map_bytes v) where
  abbrev image : Memory
  image = final sha256 loader map_bytes v

  abbrev booted : Memory
  booted =
      write_boot_sector sha256 v.image official_boot_start_sector official_boot_sectors loader
        map_bytes

  abbrev with_directories : Memory
  with_directories =
      write_directories booted (placed v (map_first loader)) (length loader) (length map_bytes)

  image-directories :
      (j : ℕ) → (j < first_fat_offset) ⊎ (root_offset ≤ j) → image j ≡ with_directories j
  unfolding fill_image
  image-directories j out = write_tables-else with_directories v.fat j out

  image-data : (j : ℕ) → cluster_offset 4 ≤ j → image j ≡ v.image j
  image-data j h =
      image-directories j (omega arith)
      ∙ write_directories-else booted v (map_first loader) (length loader) (length map_bytes) j
          (omega arith)
      ∙ write_boot_sector-else sha256 v.image _ _ loader map_bytes j (omega arith)

  -- Behind the last cluster, where the slice ends, nothing is written.
  pub image-beyond : (j : ℕ) → official_boot_sectors * bytes_per_sector ≤ j → image j ≡ 0
  image-beyond j h = image-data j (omega arith) ∙ files.beyond j h

  -- The boot files stand in the clusters of their chains.
  pub image-loader : (i : ℕ) → i < length loader → image (cluster_offset 4 + i) ≡ byte_at loader i
  image-loader i h = image-data _ (omega arith) ∙ files.loader_at i h

  pub image-map :
      (i : ℕ)
      → i < length map_bytes
      → image (cluster_offset (map_first loader) + i) ≡ byte_at map_bytes i
  image-map i h = image-data _ (omega arith) ∙ files.map_at i h

  pub image-entry :
      (c : ℕ)
      → c < fat_entries
      → v.fat c < 65536
      → mem16 (sub_slice image first_fat_offset) (c * 2) ≡ v.fat c
  unfolding fill_image
  image-entry c lt small = write_tables-entry with_directories v.fat c lt small

  -- A directory entry of the image, in a slice of it.
  pub image-HasEntry :
      {off : ℕ} {name : Bytes} {attributes cluster size : ℕ}
      → root_offset ≤ off
      → HasEntry with_directories off name attributes cluster size
      → HasEntry image off name attributes cluster size
  image-HasEntry {off} behind h =
      HasEntry-cong (λ i lt. image-directories (off + i) (omega arith)) h

  image-boot : boot_parameters_ok image official_boot_start_sector official_boot_sectors ≡ true
  image-boot =
      boot_parameters_ok-cong image booted official_boot_start_sector official_boot_sectors
        (λ j lt.
          image-directories j (omega arith)
          ∙ write_directories-else booted v (map_first loader) (length loader) (length map_bytes) j
              (omega arith))
        (write_boot_sector-parameters sha256 v.image loader map_bytes)

  image-tables :
      tables_ok (sub_slice image first_fat_offset) (sub_slice image (first_fat_offset + fat_bytes))
      ≡ true
  unfolding fill_image
  image-tables = ground (
    arith,
    write_tables-same with_directories v.fat,
    files.media,
    image-entry 0 (omega arith) (omega (arith, files.media)),
    image-entry 1 (omega arith) (omega (arith, files.media)),
  )

  -- The image is accepted, with the official number of clusters.
  pub parse_image :
      parse_fat16 image
        (official_boot_sectors * bytes_per_sector)
        official_boot_start_sector
        official_boot_sectors
      ≡ ok (final_view sha256 loader map_bytes v)
  unfolding parse_fat16
  parse_image = rw (image-boot, image-tables) refl

  pub directory-IsRun :
      (c : ℕ) → (c ≡ 2) ⊎ (c ≡ 3) → IsRun (final_view sha256 loader map_bytes v) c 0
  directory-IsRun c which = record {
    first_ok = omega arith;
    last_ok = omega arith;
    small = omega arith;
    table_ok = omega arith;
    links = λ i h. absurd (omega arith);
    end = ground (arith, files.directories, image-entry c);
  }

  pub loader-IsRun :
      IsRun (final_view sha256 loader map_bytes v) 4 (clusters_of (length loader) - 1)
  loader-IsRun = record {
    first_ok = omega arith;
    last_ok = omega (arith, f);
    small = omega arith;
    table_ok = omega arith;
    links = λ i h. ground (arith, f, image-entry (4 + i), files.loader_chain (4 + i));
    end =
        let last : ℕ = 4 + (clusters_of (length loader) - 1) in
        ground (arith, f, image-entry last, files.loader_chain last);
  }

  pub map-IsRun :
      IsRun
        (final_view sha256 loader map_bytes v)
        (map_first loader)
        (clusters_of (length map_bytes) - 1)
  map-IsRun = record {
    first_ok = omega arith;
    last_ok = omega (arith, f);
    small = omega arith;
    table_ok = omega arith;
    links = λ i h.
        ground
          (arith, f, image-entry (map_first loader + i), files.map_chain (map_first loader + i));
    end =
        let last : ℕ = map_first loader + (clusters_of (length map_bytes) - 1) in
        ground (arith, f, image-entry last, files.map_chain last);
  }
