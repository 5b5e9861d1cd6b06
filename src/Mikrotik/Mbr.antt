-- ===== src/Mikrotik/Mbr.antt =====
-- internal/mikrotik/image.go, Inspect: the MBR partition table of the image, and its checks; and
-- gpt.go, validateOfficialMBRLayout.
pub mod Disjoint
use mikrotik_chr_script.Common.{
  ℕ, zero, suc, ◌+◌, ◌*◌, Bool, true, false, not, ◌&&◌, ◌||◌, List, [], ◌∷◌, ◌++◌, ltb, leb, ◌==◌,
  if◌then◌else◌, length, Option, none, some,
}
use mikrotik_chr_script.Common.Outcome.{Result, ok, err, ◌>>=◌, ◌>>◌, reject_if, from_option}
use mikrotik_chr_script.Mikrotik.Memory.{Memory, mem32}

abbrev pub sector_size : ℕ
sector_size = 512

pub record Partition : Type 0 where
  pub index : ℕ
  pub type : ℕ
  pub bootable : Bool
  pub start_sector : ℕ
  pub sectors : ℕ
  pub offset_bytes : ℕ
  pub size_bytes : ℕ

pub record Layout : Type 0 where
  pub partitions : List Partition
  pub autorun_partition : ℕ

pub data MbrError : Type 0 where
  read_mbr missing_signature no_partitions : MbrError
  bad_boot_flag outside_image : ℕ → MbrError
  overlap : ℕ → ℕ → MbrError
  not_two_partitions not_one_and_two boot_mismatch system_mismatch : MbrError

-- One round of the loop over the table: a partition, or none for an unused entry. The products of
-- two uint32 by 512 and their sum fit an int64.
unfoldable pub read_partition : Memory → ℕ → ℕ → Result MbrError (Option Partition)
read_partition image size index =
    let offset = 446 + index * 16 in
    let partition_type = image (offset + 4) in
    let start = mem32 image (offset + 8) in
    let sectors = mem32 image (offset + 12) in
    let offset_bytes = start * sector_size in
    let size_bytes = sectors * sector_size in
    if partition_type == 0 || sectors == 0
    then ok none
    else if not (image offset == 0) && not (image offset == 0x80)
    then err (bad_boot_flag (index + 1))
    else if ltb offset_bytes sector_size || ltb size (offset_bytes + size_bytes)
    then err (outside_image (index + 1))
    else ok (
        some (record {
          index = index + 1;
          type = partition_type;
          bootable = image offset == 0x80;
          start_sector = start;
          sectors = sectors;
          offset_bytes = offset_bytes;
          size_bytes = size_bytes;
        }))

abbrev append_some : List Partition → Option Partition → List Partition
append_some ps none = ps
append_some ps (some p) = ps ++ p ∷ []

-- The entries from `index` on, of which `n` are left.
unfoldable pub read_partitions :
    ℕ → ℕ → Memory → ℕ → List Partition → Result MbrError (List Partition)
read_partitions zero index image size ps = ok ps
read_partitions (suc n) index image size ps = read_partition image size index >>= λ p.
    read_partitions n (index + 1) image size (append_some ps p)

-- `sort.Slice` by the offset. Entries of one offset overlap, so their order decides nothing.
unfoldable pub insert_by_offset : Partition → List Partition → List Partition
insert_by_offset p [] = p ∷ []
insert_by_offset p (q ∷ qs) =
    let rest = insert_by_offset p qs in
    if leb p.offset_bytes q.offset_bytes then p ∷ q ∷ qs else q ∷ rest

unfoldable pub sort_by_offset : List Partition → List Partition
sort_by_offset [] = []
sort_by_offset (p ∷ ps) = insert_by_offset p (sort_by_offset ps)

unfoldable pub check_overlap : List Partition → Result MbrError (Unit {0})
check_overlap [] = ok tt
check_overlap (p ∷ []) = ok tt
check_overlap (p ∷ q ∷ qs) =
    let rest = check_overlap (q ∷ qs) in
    if ltb q.offset_bytes (p.offset_bytes + p.size_bytes)
    then err (overlap p.index q.index)
    else rest

abbrev is_empty_list : List Partition → Bool
is_empty_list [] = true
is_empty_list (p ∷ ps) = false

unfoldable pub inspect : Memory → ℕ → Result MbrError Layout
inspect image size = do
  reject_if (ltb size sector_size) read_mbr
  reject_if (not (image 510 == 0x55) || not (image 511 == 0xaa)) missing_signature
  partitions ← read_partitions 4 0 image size []
  reject_if (is_empty_list partitions) no_partitions
  check_overlap (sort_by_offset partitions)
  ok (record { partitions = partitions; autorun_partition = 0 })

-- The map `byIndex`: a later partition of an index replaces an earlier one.
abbrev pub by_index : ℕ → List Partition → Option Partition
by_index i [] = none
by_index i (p ∷ ps) = elim (by_index i ps) [
  | none ↦ if p.index == i then some p else none
  | some q ↦ some q
]

abbrev pub official_system_start_sector : ℕ
official_system_start_sector = 65570

abbrev pub official_system_sectors : ℕ
official_system_sectors = 192478

abbrev pub official_boot_start_sector : ℕ
official_boot_start_sector = 34

abbrev pub official_boot_sectors : ℕ
official_boot_sectors = 65536

unfoldable pub validate_official_mbr_layout : Layout → Result MbrError (Partition × Partition)
validate_official_mbr_layout layout = do
  reject_if (not (length layout.partitions == 2)) not_two_partitions
  boot ← from_option not_one_and_two (by_index 1 layout.partitions)
  system ← from_option not_one_and_two (by_index 2 layout.partitions)
  reject_if
      (not (boot.type == 0x83)
        || not boot.bootable
        || not (boot.start_sector == official_boot_start_sector)
        || not (boot.sectors == official_boot_sectors))
      boot_mismatch
  reject_if
      (not (system.type == 0x83)
        || system.bootable
        || not (system.start_sector == official_system_start_sector)
        || not (system.sectors == official_system_sectors))
      system_mismatch
  ok (boot, system)
