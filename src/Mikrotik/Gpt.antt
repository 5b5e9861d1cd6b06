-- ===== src/Mikrotik/Gpt.antt =====
-- internal/mikrotik/gpt.go: the two GUID partition tables of the official image, and the checks
-- that the image has the layout which the UEFI preparation was validated for. `crc32`, a parameter,
-- stands for `crc32.ChecksumIEEE`.
pub mod Frame
pub mod Checked
use mikrotik_chr_script.Common.{
  ℕ, zero, suc, ◌+◌, ◌-◌, ◌*◌, ◌/◌, ◌%◌, Bool, true, false, not, ◌&&◌, ◌||◌, List, [], ◌∷◌, ◌++◌,
  ltb, leb, ◌==◌, if◌then◌else◌, length, take, drop, slice,
}
use mikrotik_chr_script.Common.Bytes.{Bytes, byte_at, le16, le32, le64, bytes_eq, all_zero}
use mikrotik_chr_script.Common.Text.{codes}
use mikrotik_chr_script.Common.Outcome.{Result, ok, err, ◌>>=◌, ◌>>◌, reject_if, wrap_err}
use mikrotik_chr_script.Mikrotik.Memory.{Memory, read_bytes}
use mikrotik_chr_script.Mikrotik.Mbr.{
  Partition, Layout, MbrError, sector_size, validate_official_mbr_layout,
  official_boot_start_sector, official_boot_sectors, official_system_start_sector,
  official_system_sectors,
}

abbrev pub official_chr_image_sectors : ℕ
official_chr_image_sectors = 262144

abbrev pub official_gpt_entries : ℕ
official_gpt_entries = 128

abbrev pub official_gpt_entry_size : ℕ
official_gpt_entry_size = 128

abbrev pub official_gpt_table_sectors : ℕ
official_gpt_table_sectors = 32

abbrev pub official_gpt_primary_table : ℕ
official_gpt_primary_table = 2

abbrev pub official_gpt_backup_table : ℕ
official_gpt_backup_table = 258048

abbrev pub official_gpt_backup_header : ℕ
official_gpt_backup_header = 262143

abbrev pub official_gpt_first_usable : ℕ
official_gpt_first_usable = 34

abbrev pub official_gpt_last_usable : ℕ
official_gpt_last_usable = 258047

abbrev pub efi_system_partition_guid : Bytes
efi_system_partition_guid =
    0x28 ∷ 0x73 ∷ 0x2a ∷ 0xc1 ∷ 0x1f ∷ 0xf8 ∷ 0xd2 ∷ 0x11 ∷ 0xba ∷ 0x4b ∷ 0x00 ∷ 0xa0 ∷ 0xc9 ∷ 0x3e
    ∷ 0xc9 ∷ 0x3b ∷ []

abbrev pub linux_filesystem_guid : Bytes
linux_filesystem_guid =
    0xaf ∷ 0x3d ∷ 0xc6 ∷ 0x0f ∷ 0x83 ∷ 0x84 ∷ 0x72 ∷ 0x47 ∷ 0x8e ∷ 0x79 ∷ 0x3d ∷ 0x69 ∷ 0xd8 ∷ 0x47
    ∷ 0x7d ∷ 0xe4 ∷ []

pub data GptError : Type 0 where
  wrong_image_size header_outside read_failed missing_signature bad_header_size : GptError
  header_crc_mismatch unsupported_revision reserved_not_zero bad_geometry bad_dimensions : GptError
  table_outside table_crc_mismatch : GptError
  primary_mismatch primary_table_size backup_mismatch identities_differ tables_differ : GptError
  bad_entry_size boot_entry_mismatch system_entry_mismatch bad_identities unexpected_entry :
      GptError
  geometry_differs : GptError
  mbr_error : MbrError → GptError

-- What the header says. The CRC and the size of the header are compared while it is read.
pub record Header : Type 0 where
  pub current_lba : ℕ
  pub backup_lba : ℕ
  pub first_usable_lba : ℕ
  pub last_usable_lba : ℕ
  pub disk_guid : Bytes
  pub entry_lba : ℕ
  pub entry_count : ℕ
  pub entry_size : ℕ
  pub partition_crc32 : ℕ

pub record Metadata : Type 0 where
  pub header : Header
  pub open header use *
  pub partition_table : Bytes

abbrev header_of : Bytes → Header
header_of sector = record {
  current_lba = le64 sector 24;
  backup_lba = le64 sector 32;
  first_usable_lba = le64 sector 40;
  last_usable_lba = le64 sector 48;
  disk_guid = slice sector 56 72;
  entry_lba = le64 sector 72;
  entry_count = le32 sector 80;
  entry_size = le32 sector 84;
  partition_crc32 = le32 sector 88;
}

-- `header`, with the bytes of its own CRC set to 0
abbrev crc_input : Bytes → ℕ → Bytes
crc_input sector header_size =
    take header_size (take 16 sector ++ (0 ∷ 0 ∷ 0 ∷ 0 ∷ []) ++ drop 20 sector)

-- The first half of readGPTMetadata, on the sector at `lba`.
unfoldable pub parse_gpt_header : (Bytes → ℕ) → Bytes → ℕ → ℕ → Result GptError Header
parse_gpt_header crc32 sector lba disk_sectors = do
  reject_if (not (bytes_eq (take 8 sector) (codes "EFI PART"))) missing_signature
  let header_size = le32 sector 12
  reject_if (ltb header_size 92 || ltb sector_size header_size) bad_header_size
  reject_if (not (crc32 (crc_input sector header_size) == le32 sector 16)) header_crc_mismatch
  reject_if (not (le32 sector 8 == 0x00010000)) unsupported_revision
  reject_if (not (le32 sector 20 == 0)) reserved_not_zero
  let header = header_of sector
  reject_if
      (not (header.current_lba == lba)
        || leb disk_sectors header.backup_lba
        || ltb header.last_usable_lba header.first_usable_lba
        || leb disk_sectors header.last_usable_lba)
      bad_geometry
  reject_if
      (header.entry_count == 0
        || ltb 4096 header.entry_count
        || ltb header.entry_size 128
        || ltb 4096 header.entry_size
        || not (header.entry_size % 8 == 0))
      bad_dimensions
  let table_bytes = header.entry_count * header.entry_size
  reject_if
      (ltb (16 * 1024 * 1024) table_bytes
        || leb disk_sectors header.entry_lba
        || ltb ((disk_sectors - header.entry_lba) * sector_size) table_bytes)
      table_outside
  ok header

-- The second half: the table, which a file of `size` bytes must hold.
unfoldable pub load_table : (Bytes → ℕ) → Memory → ℕ → Header → Result GptError Metadata
load_table crc32 image size header = do
  let table_bytes = header.entry_count * header.entry_size
  reject_if (ltb size (header.entry_lba * sector_size + table_bytes)) read_failed
  let table = read_bytes image (header.entry_lba * sector_size) table_bytes
  reject_if (not (crc32 table == header.partition_crc32)) table_crc_mismatch
  ok (record { header = header; partition_table = table })

unfoldable pub read_gpt_metadata : (Bytes → ℕ) → Memory → ℕ → ℕ → ℕ → Result GptError Metadata
read_gpt_metadata crc32 image size lba disk_sectors = do
  reject_if (leb disk_sectors lba) header_outside
  reject_if (ltb size (lba * sector_size + sector_size)) read_failed
  header ←
      parse_gpt_header crc32 (read_bytes image (lba * sector_size) sector_size) lba disk_sectors
  load_table crc32 image size header

unfoldable pub validate_official_gpt_headers : Header → Header → Result GptError (Unit {0})
validate_official_gpt_headers primary backup = do
  reject_if
      (not (primary.current_lba == 1)
        || not (primary.backup_lba == official_gpt_backup_header)
        || not (primary.first_usable_lba == official_gpt_first_usable)
        || not (primary.last_usable_lba == official_gpt_last_usable)
        || not (primary.entry_lba == official_gpt_primary_table)
        || not (primary.entry_count == official_gpt_entries)
        || not (primary.entry_size == official_gpt_entry_size))
      primary_mismatch
  reject_if
      (not (primary.entry_count * primary.entry_size == official_gpt_table_sectors * sector_size))
      primary_table_size
  reject_if
      (not (backup.current_lba == official_gpt_backup_header)
        || not (backup.backup_lba == 1)
        || not (backup.first_usable_lba == primary.first_usable_lba)
        || not (backup.last_usable_lba == primary.last_usable_lba)
        || not (backup.entry_lba == official_gpt_backup_table)
        || not (backup.entry_count == primary.entry_count)
        || not (backup.entry_size == primary.entry_size))
      backup_mismatch
  reject_if
      (not (bytes_eq primary.disk_guid backup.disk_guid)
        || all_zero primary.disk_guid
        || not (primary.partition_crc32 == backup.partition_crc32))
      identities_differ

-- `name` holds the UTF-16 units. They decode to an ASCII text only if they are its codes.
pub record GptPartition : Type 0 where
  pub type_guid : Bytes
  pub unique_guid : Bytes
  pub first_lba : ℕ
  pub last_lba : ℕ
  pub attributes : ℕ
  pub name : List ℕ

-- The units of the name from `offset` on, of which `n` are left.
unfoldable pub name_units : Bytes → ℕ → ℕ → List ℕ
name_units entry offset zero = []
name_units entry offset (suc n) =
    let rest = name_units entry (offset + 2) n in
    let value = le16 entry offset in if value == 0 then [] else value ∷ rest

unfoldable pub parse_gpt_partition : Bytes → Result GptError GptPartition
parse_gpt_partition entry =
    if length entry == official_gpt_entry_size
    then ok (record {
      type_guid = take 16 entry;
      unique_guid = slice entry 16 32;
      first_lba = le64 entry 32;
      last_lba = le64 entry 40;
      attributes = le64 entry 48;
      name = name_units entry 56 36;
    })
    else err bad_entry_size

abbrev is_official_boot : GptPartition → Bool
is_official_boot first = not (
    not (bytes_eq first.type_guid efi_system_partition_guid)
    || not (first.first_lba == official_boot_start_sector)
    || not (first.last_lba == official_boot_start_sector + official_boot_sectors - 1)
    || not (first.attributes == 4)
    || not (bytes_eq first.name (codes "RouterOS Boot")))

abbrev is_official_system : GptPartition → Bool
is_official_system second = not (
    not (bytes_eq second.type_guid linux_filesystem_guid)
    || not (second.first_lba == official_system_start_sector)
    || not (second.last_lba == official_system_start_sector + official_system_sectors - 1)
    || not (second.attributes == 0)
    || not (bytes_eq second.name (codes "RouterOS")))

-- The entries from `offset` on, of which `n` are left, are unused.
unfoldable pub entries_unused : Bytes → ℕ → ℕ → Bool
entries_unused table offset zero = true
entries_unused table offset (suc n) =
    all_zero (slice table offset (offset + official_gpt_entry_size))
    && entries_unused table (offset + official_gpt_entry_size) n

-- The checks behind the two reads, which see no more than the metadata.
unfoldable pub check_official_gpt :
    Partition → Partition → Metadata → Metadata → Result GptError Partition
check_official_gpt boot system primary backup = do
  validate_official_gpt_headers primary.header backup.header
  let table = primary.partition_table
  reject_if (not (bytes_eq table backup.partition_table)) tables_differ
  first ← parse_gpt_partition (take official_gpt_entry_size table)
  second ← parse_gpt_partition (slice table official_gpt_entry_size (2 * official_gpt_entry_size))
  reject_if (not (is_official_boot first)) boot_entry_mismatch
  reject_if (not (is_official_system second)) system_entry_mismatch
  reject_if
      (all_zero first.unique_guid
        || all_zero second.unique_guid
        || bytes_eq first.unique_guid second.unique_guid)
      bad_identities
  reject_if
      (not (
        entries_unused table (2 * official_gpt_entry_size)
          (length table / official_gpt_entry_size - 2)))
      unexpected_entry
  reject_if
      (not (boot.start_sector == first.first_lba)
        || not (boot.start_sector + boot.sectors - 1 == first.last_lba)
        || not (system.start_sector == second.first_lba)
        || not (system.start_sector + system.sectors - 1 == second.last_lba))
      geometry_differs
  ok boot

unfoldable pub validate_official_uefi_gpt :
    (Bytes → ℕ) → Memory → ℕ → Layout → Result GptError Partition
validate_official_uefi_gpt crc32 image size layout = do
  (boot, system) ← wrap_err mbr_error (validate_official_mbr_layout layout)
  reject_if (not (size == official_chr_image_sectors * sector_size)) wrong_image_size
  primary ← read_gpt_metadata crc32 image size 1 official_chr_image_sectors
  backup ← read_gpt_metadata crc32 image size primary.backup_lba official_chr_image_sectors
  check_official_gpt boot system primary backup
