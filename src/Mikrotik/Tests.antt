-- ===== src/Mikrotik/Tests.antt =====
-- Concrete images and files on which the theorems on internal/mikrotik are applied.
use mikrotik_chr_script.Common.{
  ℕ, ◌+◌, ◌-◌, ◌*◌, ltb, if◌then◌else◌, ◌≤◌, ◌≡◌, ◌≢◌, refl, true, false, [], ◌∷◌, ◌++◌, length,
  replicate, arith, All,
}
use mikrotik_chr_script.Common.Bytes.{Bytes}
use mikrotik_chr_script.Common.Text.{codes}
use mikrotik_chr_script.Common.Outcome.{ok, err}
use mikrotik_chr_script.Mikrotik.Memory.{Memory, blit, zeros, copy_at, put16, put32, read_bytes}
use mikrotik_chr_script.Mikrotik.Loader.{validate_efi_loader}
use mikrotik_chr_script.Mikrotik.Mbr.{
  Partition, Layout, sector_size, inspect, official_boot_start_sector, official_boot_sectors,
  read_partition, read_partitions, check_overlap, insert_by_offset, sort_by_offset,
  validate_official_mbr_layout,
}
use mikrotik_chr_script.Mikrotik.Mbr.Disjoint.{IsInside, AllApart, inspect-ok}
use mikrotik_chr_script.Mikrotik.Gpt.{
  validate_official_uefi_gpt, efi_system_partition_guid, linux_filesystem_guid, parse_gpt_header,
  load_table, read_gpt_metadata, validate_official_gpt_headers, name_units, parse_gpt_partition,
  entries_unused, check_official_gpt,
}
use mikrotik_chr_script.Mikrotik.Gpt.Frame.{SameOutside, validate_official_uefi_gpt-same}
use mikrotik_chr_script.Mikrotik.FatReader.{
  bytes_per_sector, View, read_chain, stuck, cluster_offset, cluster_bytes,
}
use mikrotik_chr_script.Mikrotik.FatReader.Chain.{IsRun, read_chain-ne-stuck, read_chain-run}
use mikrotik_chr_script.Mikrotik.FatCheck.{validate_uefi_fat16}
use mikrotik_chr_script.Mikrotik.FatWriter.{build_uefi_fat16}
use mikrotik_chr_script.Mikrotik.FatWriter.RoundTrip.{build_uefi_fat16_total}
use mikrotik_chr_script.Mikrotik.Uefi.{
  all_succeed, BootFs, FileState, read_uefi_boot_files, read_mounted, read_bounded_regular_file,
  read_at, prepare_uefi_image, directory, regular,
}
use mikrotik_chr_script.Mikrotik.Uefi.Prepared.{prepare_uefi_image_total, blit-SameOutside}

-- `MZ`, the offset of the PE header at 0x3c, and the header at 0x80
abbrev a_loader : Bytes
a_loader =
    77 ∷ 90 ∷ replicate 58 0
    ++ 0x80 ∷ 0 ∷ 0 ∷ 0 ∷ replicate 64 0
    ++ 80 ∷ 69 ∷ 0 ∷ 0 ∷ 0x64 ∷ 0x86 ∷ replicate 10 1

abbrev a_map : Bytes
a_map = 1 ∷ 2 ∷ 3 ∷ 4 ∷ []

loader_good : validate_efi_loader a_loader ≡ ok tt
unfolding validate_efi_loader
loader_good = refl

abbrev no_sum : Bytes → ℕ
no_sum bytes = 0

abbrev no_hash : Bytes → Bytes
no_hash bytes = []

-- The MBR entry at `off`
abbrev put_mbr_entry : Memory → ℕ → ℕ → ℕ → ℕ → Memory
put_mbr_entry m off flag start sectors =
    put32 (put32 (copy_at (copy_at m off (flag ∷ [])) (off + 4) (0x83 ∷ [])) (off + 8) start)
      (off + 12) sectors

abbrev put_gpt_header : Memory → ℕ → ℕ → ℕ → ℕ → Memory
put_gpt_header m lba mine other table =
    let off = lba * 512 in
    let signed = copy_at m off (codes "EFI PART") in
    let m1 = put32 (put32 signed (off + 8) 0x10000) (off + 12) 92 in
    let m2 =
      put32 (put32 (put32 (put32 m1 (off + 24) mine) (off + 32) other) (off + 40) 34) (off + 48)
        258047 in
    put32 (put32 (put32 (copy_at m2 (off + 56) (7 ∷ [])) (off + 72) table) (off + 80) 128)
      (off + 84) 128

abbrev wide : Bytes → Bytes
wide [] = []
wide (c ∷ cs) = c ∷ 0 ∷ wide cs

abbrev put_gpt_entry : Memory → ℕ → Bytes → ℕ → ℕ → ℕ → ℕ → Bytes → Memory
put_gpt_entry m off guid unique first last attributes name =
    let m1 = copy_at (copy_at m off guid) (off + 16) (unique ∷ []) in
    let m2 = put32 (put32 (put32 m1 (off + 32) first) (off + 40) last) (off + 48) attributes in
    copy_at m2 (off + 56) (wide name)

abbrev put_gpt_table : Memory → ℕ → Memory
put_gpt_table m off =
    put_gpt_entry
      (put_gpt_entry m off efi_system_partition_guid 1 34 65569 4 (codes "RouterOS Boot"))
      (off + 128) linux_filesystem_guid 2 65570 258047 0 (codes "RouterOS")

abbrev an_mbr : Memory
an_mbr =
    copy_at (put_mbr_entry (put_mbr_entry zeros 446 0x80 34 65536) 462 0 65570 192478) 510
      (0x55 ∷ 0xaa ∷ [])

-- The two used entries, and nothing behind them
abbrev a_table : Memory
a_table i = if ltb i 256 then put_gpt_table zeros 0 i else 0

abbrev primary_header : Memory
primary_header = put_gpt_header zeros 0 1 262143 2

abbrev backup_header : Memory
backup_header = put_gpt_header zeros 0 262143 1 258048

abbrev an_image : Memory
an_image i =
    if ltb i 1024
    then (if ltb i 512 then an_mbr i else primary_header (i - 512))
    else if ltb i (258048 * 512)
    then a_table (i - 1024)
    else if ltb i (262143 * 512)
    then a_table (i - 258048 * 512)
    else backup_header (i - 262143 * 512)

abbrev an_image_size : ℕ
an_image_size = 262144 * 512

abbrev boot_partition : Partition
boot_partition = record {
  index = 1;
  type = 0x83;
  bootable = true;
  start_sector = 34;
  sectors = 65536;
  offset_bytes = 34 * 512;
  size_bytes = 65536 * 512;
}

abbrev system_partition : Partition
system_partition = record {
  index = 2;
  type = 0x83;
  bootable = false;
  start_sector = 65570;
  sectors = 192478;
  offset_bytes = 65570 * 512;
  size_bytes = 192478 * 512;
}

abbrev a_layout : Layout
a_layout = record { partitions = boot_partition ∷ system_partition ∷ []; autorun_partition = 0 }

image_inspected : inspect an_image an_image_size ≡ ok a_layout
unfolding inspect read_partitions read_partition sort_by_offset insert_by_offset check_overlap
image_inspected = refl

image_valid : validate_official_uefi_gpt no_sum an_image an_image_size a_layout ≡ ok boot_partition
unfolding validate_official_uefi_gpt validate_official_mbr_layout read_gpt_metadata parse_gpt_header
    load_table check_official_gpt validate_official_gpt_headers parse_gpt_partition name_units
    entries_unused read_bytes
image_valid = refl

image_inspected-ok :
    All (IsInside an_image_size) a_layout.partitions
    × AllApart a_layout.partitions
    × (1 ≤ length a_layout.partitions)
    × (length a_layout.partitions ≤ 4)
image_inspected-ok = inspect-ok an_image an_image_size image_inspected

abbrev good_file : Bytes → FileState
good_file bytes = record {
  kind = regular;
  stat_size = length bytes;
  readable = true;
  content = bytes;
}

abbrev a_boot_fs : BootFs
a_boot_fs = record {
  temp_dir_ok = true;
  mount_ok = true;
  efi_kind = directory;
  boot_kind = directory;
  loader = good_file a_loader;
  map_file = good_file a_map;
  unmount_ok = true;
  remove_ok = true;
}

boot_files_read : read_uefi_boot_files a_boot_fs ≡ ok (a_loader, a_map)
unfolding read_uefi_boot_files read_mounted read_bounded_regular_file validate_efi_loader
boot_files_read = refl

prepare_uefi_image_example :
    (prepared : Memory) × (prepare_uefi_image no_sum no_hash a_boot_fs all_succeed an_image
        an_image_size a_layout
      ≡ ok prepared)
    × SameOutside an_image prepared
    × (validate_official_uefi_gpt no_sum prepared an_image_size a_layout ≡ ok boot_partition)
    × (validate_uefi_fat16
          (read_at prepared boot_partition.offset_bytes (boot_partition.sectors * sector_size))
          (boot_partition.sectors * sector_size)
          boot_partition.start_sector
          boot_partition.sectors
          a_loader
          a_map
        ≡ ok tt)
prepare_uefi_image_example =
    prepare_uefi_image_total no_sum no_hash a_boot_fs all_succeed an_image an_image_size
      image_inspected image_valid boot_files_read refl

build_uefi_fat16_example :
    (image : Memory) × (build_uefi_fat16 no_hash official_boot_start_sector official_boot_sectors
        a_loader a_map
      ≡ ok image)
    × (validate_uefi_fat16 image
          (official_boot_sectors * bytes_per_sector)
          official_boot_start_sector
          official_boot_sectors
          a_loader
          a_map
        ≡ ok tt)
    × ((j : ℕ) → official_boot_sectors * bytes_per_sector ≤ j → image j ≡ 0)
build_uefi_fat16_example =
    build_uefi_fat16_total no_hash a_loader a_map loader_good (omega arith) (omega arith) refl

abbrev a_written_image : Memory
a_written_image =
    blit an_image boot_partition.offset_bytes (boot_partition.sectors * sector_size) (λ i. 7)

validate_official_uefi_gpt_example :
    validate_official_uefi_gpt no_sum a_written_image an_image_size a_layout ≡ ok boot_partition
validate_official_uefi_gpt_example =
    validate_official_uefi_gpt-same no_sum an_image a_written_image an_image_size a_layout
      (blit-SameOutside an_image (λ i. 7) boot_partition refl refl) image_valid

abbrev a_view : Memory → View
a_view fat = record {
  image = zeros;
  fat = fat;
  fat_size = 20;
  root = zeros;
  root_size = 0;
  data_cluster_count = 8;
}

-- Cluster 2 points to itself.
abbrev a_cycle : Memory
a_cycle = put16 zeros 4 2

read_chain-ne-stuck_example : read_chain (a_view a_cycle) 2 ≢ err stuck
read_chain-ne-stuck_example = read_chain-ne-stuck (a_view a_cycle) 2

abbrev a_run : Memory
a_run = put16 (put16 zeros 4 3) 6 0xffff

a_run-IsRun : IsRun (a_view a_run) 2 1
a_run-IsRun = record {
  first_ok = omega arith;
  last_ok = omega arith;
  small = omega arith;
  table_ok = omega arith;
  links = λ i lt. ground arith;
  end = refl;
}

read_chain-run_example :
    read_chain (a_view a_run) 2 ≡ ok (read_bytes zeros (cluster_offset 2) (2 * cluster_bytes))
read_chain-run_example = read_chain-run (a_view a_run) 2 1 a_run-IsRun
