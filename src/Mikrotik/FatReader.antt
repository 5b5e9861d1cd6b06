-- ===== src/Mikrotik/FatReader.antt =====
-- internal/mikrotik/fat16.go: the constants of the boot partition and the reading half, from
-- parseFAT16 to readFile.
pub mod Chain
pub mod Find
use mikrotik_chr_script.Common.{
  ℕ, zero, suc, ◌+◌, ◌-◌, ◌*◌, ◌/◌, ◌%◌, Bool, true, false, not, ◌&&◌, ◌||◌, List, [], ◌∷◌, ◌++◌,
  ltb, leb, ◌==◌, if◌then◌else◌, length, take, any_of, bit_and,
}
use mikrotik_chr_script.Common.Bytes.{Bytes, bytes_eq}
use mikrotik_chr_script.Common.Text.{codes}
use mikrotik_chr_script.Common.Outcome.{Result, ok, err, ◌>>=◌, ◌>>◌, reject_if}
use mikrotik_chr_script.Mikrotik.Memory.{Memory, read_bytes, same_bytes, mem16, mem32}
use mikrotik_chr_script.Mikrotik.Loader.{LoaderError}

abbrev pub bytes_per_sector : ℕ
bytes_per_sector = 512

abbrev pub sectors_per_cluster : ℕ
sectors_per_cluster = 4

abbrev pub reserved_sectors : ℕ
reserved_sectors = 4

abbrev pub fat_copies : ℕ
fat_copies = 2

abbrev pub root_entries : ℕ
root_entries = 512

abbrev pub sectors_per_fat : ℕ
sectors_per_fat = 64

abbrev pub root_sectors : ℕ
root_sectors = 32

abbrev pub data_start_sector : ℕ
data_start_sector = reserved_sectors + fat_copies * sectors_per_fat + root_sectors

abbrev pub cluster_bytes : ℕ
cluster_bytes = bytes_per_sector * sectors_per_cluster

abbrev pub data_offset : ℕ
data_offset = data_start_sector * bytes_per_sector

abbrev pub first_fat_offset : ℕ
first_fat_offset = reserved_sectors * bytes_per_sector

abbrev pub fat_bytes : ℕ
fat_bytes = sectors_per_fat * bytes_per_sector

abbrev pub root_offset : ℕ
root_offset = (reserved_sectors + fat_copies * sectors_per_fat) * bytes_per_sector

abbrev pub root_bytes : ℕ
root_bytes = root_sectors * bytes_per_sector

abbrev pub name_volume : Bytes
name_volume = codes "ROSBOOT    "

abbrev pub name_efi : Bytes
name_efi = codes "EFI        "

abbrev pub name_boot : Bytes
name_boot = codes "BOOT       "

abbrev pub name_loader : Bytes
name_loader = codes "BOOTX64 EFI"

abbrev pub name_map : Bytes
name_map = codes "MAP        "

abbrev pub name_current : Bytes
name_current = codes ".          "

abbrev pub name_parent : Bytes
name_parent = codes "..         "

-- `slice_out_of_range` is a Go panic, and `stuck` is no outcome of the program: the fuel of a loop
-- ran out.
pub data FatError : Type 0 where
  geometry_mismatch bad_map_size too_large bad_data_geometry cluster_count_out_of_range : FatError
  table_too_small empty_object does_not_fit : FatError
  bad_size bad_boot_parameters bad_tables not_found : FatError
  bad_chain_start bad_cluster chain_loop_found entry_outside_table bad_next_cluster : FatError
  empty_file_with_cluster size_exceeds_chain : FatError
  missing_efi missing_boot missing_loader missing_map loader_differs map_differs : FatError
  slice_out_of_range stuck : FatError
  loader_error : LoaderError → FatError

pub record DirectoryEntry : Type 0 where
  pub attributes : ℕ
  pub cluster : ℕ
  pub size : ℕ

-- The slices of `fat16View`. `clusterBytes` and `dataOffset` are always the constants.
pub record View : Type 0 where
  pub image : Memory
  pub fat : Memory
  pub fat_size : ℕ
  pub root : Memory
  pub root_size : ℕ
  pub data_cluster_count : ℕ

abbrev pub sub_slice : Memory → ℕ → Memory
sub_slice m off i = m (off + i)

abbrev pub boot_parameters_ok : Memory → ℕ → ℕ → Bool
boot_parameters_ok boot start_sector sectors = not (
    not (boot 510 == 0x55)
    || not (boot 511 == 0xaa)
    || not (mem16 boot 11 == bytes_per_sector)
    || not (boot 13 == sectors_per_cluster)
    || not (mem16 boot 14 == reserved_sectors)
    || not (boot 16 == fat_copies)
    || not (mem16 boot 17 == root_entries)
    || not (mem16 boot 22 == sectors_per_fat)
    || not (mem32 boot 28 == start_sector)
    || not (mem32 boot 32 == sectors)
    || not (bytes_eq (read_bytes boot 54 8) (codes "FAT16   ")))

abbrev pub tables_ok : Memory → Memory → Bool
tables_ok first second = not (
    not (same_bytes first 0 second 0 fat_bytes)
    || not (mem16 first 0 == 0xfff8)
    || not (mem16 first 2 == 0xffff))

-- An image that holds the boot sector and not the tables is a panic of the code: it slices first.
unfoldable pub parse_fat16 : Memory → ℕ → ℕ → ℕ → Result FatError View
parse_fat16 image size start_sector sectors = do
  reject_if (not (size == sectors * bytes_per_sector) || ltb size bytes_per_sector) bad_size
  reject_if (not (boot_parameters_ok image start_sector sectors)) bad_boot_parameters
  reject_if (ltb size data_offset) slice_out_of_range
  let first = sub_slice image first_fat_offset
  let second = sub_slice image (first_fat_offset + fat_bytes)
  reject_if (not (tables_ok first second)) bad_tables
  ok (record {
    image = image;
    fat = first;
    fat_size = fat_bytes;
    root = sub_slice image root_offset;
    root_size = root_bytes;
    data_cluster_count = (sectors - data_start_sector) / sectors_per_cluster % 65536;
  })

abbrev pub entry_at : Memory → ℕ → DirectoryEntry
entry_at directory off = record {
  attributes = directory (off + 11);
  cluster = mem16 directory (off + 26);
  size = mem32 directory (off + 28);
}

-- A deleted entry, a long name, or a volume label
abbrev pub is_skipped : Memory → ℕ → Bool
is_skipped directory off =
    directory off == 0xe5
    || directory (off + 11) == 0x0f
    || not (bit_and (directory (off + 11)) 0x08 == 0)

-- The loop over the entries from `off` on, of which `n` are left.
unfoldable pub find_from : Memory → Bytes → ℕ → ℕ → Result FatError DirectoryEntry
find_from directory expected off zero = err not_found
find_from directory expected off (suc n) =
    let rest = find_from directory expected (off + 32) n in
    if directory off == 0x00
    then err not_found
    else if is_skipped directory off
    then rest
    else if bytes_eq (read_bytes directory off 11) expected
    then ok (entry_at directory off)
    else rest

unfoldable pub find_directory_entry : Memory → ℕ → Bytes → Result FatError DirectoryEntry
find_directory_entry directory size expected = find_from directory expected 0 (size / 32)

-- `start < 2 || int(start-2) >= int(view.dataClusterCount)`
abbrev pub is_bad_cluster : View → ℕ → Bool
is_bad_cluster view cluster = ltb cluster 2 || leb view.data_cluster_count (cluster - 2)

abbrev pub cluster_offset : ℕ → ℕ
cluster_offset cluster = data_offset + (cluster - 2) * cluster_bytes

-- The loop of `readChain`; `seen` is its set.
unfoldable pub chain_loop : ℕ → View → ℕ → List ℕ → Bytes → Result FatError Bytes
chain_loop zero view cluster seen value = err stuck
chain_loop (suc fuel) view cluster seen value =
    let longer = value ++ read_bytes view.image (cluster_offset cluster) cluster_bytes in
    let next = mem16 view.fat (cluster * 2) in
    let rest = chain_loop fuel view next (cluster ∷ seen) longer in
    if is_bad_cluster view cluster
    then err bad_cluster
    else if any_of (λ c. c == cluster) seen
    then err chain_loop_found
    else if ltb view.fat_size (cluster * 2 + 2)
    then err entry_outside_table
    else if leb 0xfff8 next
    then ok longer
    else if ltb next 2 || next == 0xfff7
    then err bad_next_cluster
    else rest

-- Every round takes a new cluster, so one round more than there are clusters is enough.
unfoldable pub read_chain : View → ℕ → Result FatError Bytes
read_chain view start =
    if is_bad_cluster view start
    then err bad_chain_start
    else chain_loop (view.data_cluster_count + 1) view start [] []

abbrev pub cut_to : ℕ → Bytes → Result FatError Bytes
cut_to size value = if ltb (length value) size then err size_exceeds_chain else ok (take size value)

unfoldable pub read_file : View → DirectoryEntry → Result FatError Bytes
read_file view entry =
    if entry.size == 0
    then (if entry.cluster == 0 then ok [] else err empty_file_with_cluster)
    else (read_chain view entry.cluster >>= cut_to entry.size)

-- `err != nil || entry.attributes&0x10 == 0`, and the same with `!= 0`
abbrev pub as_directory : FatError → Result FatError DirectoryEntry → Result FatError DirectoryEntry
as_directory e (err _) = err e
as_directory e (ok entry) = if bit_and entry.attributes 0x10 == 0 then err e else ok entry

abbrev pub as_file : FatError → Result FatError DirectoryEntry → Result FatError DirectoryEntry
as_file e (err _) = err e
as_file e (ok entry) = if bit_and entry.attributes 0x10 == 0 then ok entry else err e
