-- ===== src/Mikrotik/FatWriter.antt =====
-- internal/mikrotik/fat16.go: the writing half, buildUEFIFAT16 and its helpers.
pub mod Allocate
pub mod Files
pub mod Entries
pub mod Tables
pub mod BootSector
pub mod Parsed
pub mod RoundTrip
use mikrotik_chr_script.Common.{
  ℕ, zero, suc, ◌+◌, ◌-◌, ◌*◌, ◌/◌, ◌%◌, ◌^◌, Bool, true, false, not, ◌&&◌, ◌||◌, List, [], ◌∷◌,
  ◌++◌, ltb, leb, ◌==◌, if◌then◌else◌, length, drop, replicate,
}
use mikrotik_chr_script.Common.Bytes.{Bytes, byte_at, le32}
use mikrotik_chr_script.Common.Text.{codes}
use mikrotik_chr_script.Common.Outcome.{Result, ok, err, ◌>>=◌, ◌>>◌, reject_if, wrap_err}
use mikrotik_chr_script.Mikrotik.Memory.{Memory, zeros, blit, copy_at, poke, put16, put32}
use mikrotik_chr_script.Mikrotik.Loader.{validate_efi_loader, max_efi_map_bytes}
use mikrotik_chr_script.Mikrotik.FatReader.{
  FatError, geometry_mismatch, bad_map_size, too_large, bad_data_geometry, table_too_small,
  cluster_count_out_of_range, empty_object, does_not_fit, loader_error, bytes_per_sector,
  sectors_per_cluster, reserved_sectors, fat_copies, root_entries, sectors_per_fat,
  data_start_sector, cluster_bytes, data_offset, first_fat_offset, fat_bytes, root_offset,
  name_volume, name_efi, name_boot, name_loader, name_map, name_current, name_parent,
  cluster_offset,
}
use mikrotik_chr_script.Mikrotik.Mbr.{official_boot_start_sector, official_boot_sectors}
use mikrotik_chr_script.Mikrotik.FatCheck.{validate_uefi_fat16}

-- What the closure `allocate` captures: the image, the table of uint16 entries, and `nextCluster`.
pub record Volume : Type 0 where
  pub image : Memory
  pub fat : Memory
  pub next_cluster : ℕ

-- `uint16` arithmetic
abbrev pub u16 : ℕ → ℕ
u16 n = n % 65536

-- One round of the loop of `allocate`: the entry of the cluster `index`, and its piece of the data.
abbrev pub allocate_cluster : Bytes → ℕ → ℕ → ℕ → Volume → Volume
allocate_cluster content clusters first index v =
    let cluster = u16 (first + u16 index) in
    let start = index * cluster_bytes in
    let end =
      if ltb (length content) (start + cluster_bytes)
      then length content
      else start + cluster_bytes in
    record v {
      fat = poke v.fat cluster (if index == clusters - 1 then 0xffff else u16 (cluster + 1));
      image =
          blit v.image (cluster_offset cluster) (end - start) (λ i. byte_at content (start + i));
    }

-- The rounds from `index` on, of which `n` are left.
unfoldable pub allocate_loop : ℕ → Bytes → ℕ → ℕ → ℕ → Volume → Volume
allocate_loop zero content clusters first index v = v
allocate_loop (suc n) content clusters first index v =
    allocate_loop n content clusters first (index + 1)
      (allocate_cluster content clusters first index v)

abbrev pub clusters_of : ℕ → ℕ
clusters_of n = (n + cluster_bytes - 1) / cluster_bytes

-- `allocate`: the first cluster of the object, and the volume behind it.
unfoldable pub allocate : ℕ → Bytes → Volume → Result FatError (ℕ × Volume)
allocate cluster_count content v =
    let clusters = clusters_of (length content) in
    if clusters == 0
    then err empty_object
    else if ltb (cluster_count + 2) (v.next_cluster + clusters)
    then err does_not_fit
    else let w = allocate_loop clusters content clusters v.next_cluster 0 v in
      ok (v.next_cluster, record w { next_cluster = u16 (w.next_cluster + u16 clusters) })

-- `make([]byte, fat16ClusterBytes)`
unfoldable pub empty_cluster : Bytes
empty_cluster = replicate cluster_bytes 0

-- writeFAT16BootSector; `sha256` stands for `sha256.Sum256`.
unfoldable pub write_boot_sector : (Bytes → Bytes) → Memory → ℕ → ℕ → Bytes → Bytes → Memory
write_boot_sector sha256 s0 start_sector sectors loader map_bytes =
    let s1 = copy_at s0 0 (0xeb ∷ 0x3c ∷ 0x90 ∷ []) in
    let s2 = copy_at s1 3 (codes "CHRINST ") in
    let s3 = put16 s2 11 bytes_per_sector in
    let s4 = poke s3 13 sectors_per_cluster in
    let s5 = put16 s4 14 reserved_sectors in
    let s6 = poke s5 16 fat_copies in
    let s7 = put16 s6 17 root_entries in
    let s8 = put16 s7 19 0 in
    let s9 = poke s8 21 0xf8 in
    let s10 = put16 s9 22 sectors_per_fat in
    let s11 = put16 s10 24 32 in
    let s12 = put16 s11 26 4 in
    let s13 = put32 s12 28 start_sector in
    let s14 = put32 s13 32 sectors in
    let s15 = poke s14 36 0x80 in
    let s16 = poke s15 38 0x29 in
    let identifier = sha256 (loader ++ map_bytes) in
    let s17 = put32 s16 39 (le32 identifier 0) in
    let s18 = copy_at s17 43 name_volume in
    let s19 = copy_at s18 54 (codes "FAT16   ") in poke (poke s19 510 0x55) 511 0xaa

-- `(2026-1980)<<9 | 1<<5 | 1`, whose three parts have no bit in common
abbrev fixed_date : ℕ
fixed_date = (2026 - 1980) * 2 ^ 9 + 2 ^ 5 + 1

-- writeFAT16DirectoryEntry, on the entry at `off`
unfoldable pub write_directory_entry : Memory → ℕ → Bytes → ℕ → ℕ → ℕ → Memory
write_directory_entry m off name attributes cluster size =
    let m1 = copy_at m off name in
    let m2 = poke m1 (off + 11) attributes in
    let m3 = put16 m2 (off + 16) fixed_date in
    let m4 = put16 m3 (off + 18) fixed_date in
    let m5 = put16 m4 (off + 24) fixed_date in
    let m6 = put16 m5 (off + 26) cluster in put32 m6 (off + 28) size

-- The loop that serialises the table: the entries from `index` on, of which `n` are left.
unfoldable pub serialize_fat : ℕ → ℕ → Memory → Memory → Memory
serialize_fat zero index fat m = m
serialize_fat (suc n) index fat m =
    serialize_fat n (index + 1) fat (put16 m (index * 2) (fat index))

abbrev pub fat_entries : ℕ
fat_entries = sectors_per_fat * bytes_per_sector / 2

-- What the four calls of `allocate` yield.
pub record Allocated : Type 0 where
  pub efi : ℕ
  pub boot : ℕ
  pub loader : ℕ
  pub map_start : ℕ
  pub volume : Volume

-- `fat[0], fat[1] = 0xfff8, 0xffff` on a new table, and `nextCluster := 2`
abbrev pub new_volume : Volume
new_volume = record { image = zeros; fat = poke (poke zeros 0 0xfff8) 1 0xffff; next_cluster = 2 }

unfoldable pub allocate_all : ℕ → Bytes → Bytes → Result FatError Allocated
allocate_all cluster_count loader map_bytes = do
  (efi, v1) ← allocate cluster_count empty_cluster new_volume
  (boot, v2) ← allocate cluster_count empty_cluster v1
  (loader_start, v3) ← allocate cluster_count loader v2
  (map_start, v4) ← allocate cluster_count map_bytes v3
  ok (record { efi = efi; boot = boot; loader = loader_start; map_start = map_start; volume = v4 })

-- The entries of the root and of the two directories.
unfoldable pub write_directories : Memory → Allocated → ℕ → ℕ → Memory
write_directories m a loader_size map_size =
    let r1 = write_directory_entry m root_offset name_volume 0x08 0 0 in
    let r2 = write_directory_entry r1 (root_offset + 32) name_efi 0x10 a.efi 0 in
    let r3 = write_directory_entry r2 (root_offset + 64) name_map 0x20 a.map_start map_size in
    let efi = cluster_offset a.efi in
    let e1 = write_directory_entry r3 efi name_current 0x10 a.efi 0 in
    let e2 = write_directory_entry e1 (efi + 32) name_parent 0x10 0 0 in
    let e3 = write_directory_entry e2 (efi + 64) name_boot 0x10 a.boot 0 in
    let boot = cluster_offset a.boot in
    let b1 = write_directory_entry e3 boot name_current 0x10 a.boot 0 in
    let b2 = write_directory_entry b1 (boot + 32) name_parent 0x10 a.efi 0 in
    write_directory_entry b2 (boot + 64) name_loader 0x20 a.loader loader_size

-- Both copies of the table.
unfoldable pub write_tables : Memory → Memory → Memory
write_tables m fat =
    let serialized = serialize_fat fat_entries 0 fat zeros in
    blit (blit m first_fat_offset fat_bytes serialized) (first_fat_offset + fat_bytes) fat_bytes
      serialized

-- The sizes are at most 16 MiB, so `uint32(len(...))` does not wrap.
unfoldable pub fill_image : (Bytes → Bytes) → ℕ → ℕ → Bytes → Bytes → Allocated → Memory
fill_image sha256 start_sector sectors loader map_bytes a =
    let m1 = write_boot_sector sha256 a.volume.image start_sector sectors loader map_bytes in
    let m2 = write_directories m1 a (length loader) (length map_bytes) in
    write_tables m2 a.volume.fat

abbrev bad_map : Bytes → Bool
bad_map map_bytes =
    length map_bytes == 0
    || ltb max_efi_map_bytes (length map_bytes)
    || not (length map_bytes % 4 == 0)

-- The image has `sectors * 512` bytes. An int has 64 bits: the program is built for amd64 alone.
unfoldable pub build_uefi_fat16 : (Bytes → Bytes) → ℕ → ℕ → Bytes → Bytes → Result FatError Memory
build_uefi_fat16 sha256 start_sector sectors loader map_bytes = do
  reject_if
      (not (start_sector == official_boot_start_sector) || not (sectors == official_boot_sectors))
      geometry_mismatch
  wrap_err loader_error (validate_efi_loader loader)
  reject_if (bad_map map_bytes) bad_map_size
  reject_if (ltb (2 ^ 63 - 1) (sectors * bytes_per_sector)) too_large
  let data_sectors = sectors - data_start_sector
  reject_if (data_sectors == 0 || not (data_sectors % sectors_per_cluster == 0)) bad_data_geometry
  let cluster_count = data_sectors / sectors_per_cluster
  reject_if (ltb cluster_count 4085 || leb 65525 cluster_count) cluster_count_out_of_range
  reject_if (ltb fat_entries (cluster_count + 2)) table_too_small
  a ← allocate_all cluster_count loader map_bytes
  let image = fill_image sha256 start_sector sectors loader map_bytes a
  validate_uefi_fat16 image (sectors * bytes_per_sector) start_sector sectors loader map_bytes
  ok image
