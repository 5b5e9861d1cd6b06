-- ===== src/Mikrotik/Uefi.antt =====
-- internal/mikrotik/uefi.go: the boot files are read from the mounted boot partition, and the
-- partition is replaced by the FAT16 one. The mounted tree and what its system calls answer are
-- the record `BootFs`.
pub mod Prepared
use mikrotik_chr_script.Common.{
  ℕ, ◌+◌, ◌-◌, ◌*◌, ◌%◌, Bool, true, false, not, ◌&&◌, ◌||◌, ltb, leb, ◌==◌, if◌then◌else◌, length,
}
use mikrotik_chr_script.Common.Bytes.{Bytes}
use mikrotik_chr_script.Common.Outcome.{Result, ok, err, ◌>>=◌, ◌>>◌, reject_if, wrap_err}
use mikrotik_chr_script.Mikrotik.Memory.{Memory, blit}
use mikrotik_chr_script.Mikrotik.Loader.{
  LoaderError, validate_efi_loader, max_efi_loader_bytes, max_efi_map_bytes,
}
use mikrotik_chr_script.Mikrotik.Mbr.{Partition, Layout, sector_size}
use mikrotik_chr_script.Mikrotik.Gpt.{GptError, validate_official_uefi_gpt}
use mikrotik_chr_script.Mikrotik.FatReader.{FatError}
use mikrotik_chr_script.Mikrotik.FatCheck.{validate_uefi_fat16}
use mikrotik_chr_script.Mikrotik.FatWriter.{build_uefi_fat16}

-- What `os.Lstat` says of a path.
pub data FileKind : Type 0 where
  absent directory regular symlink other : FileKind

-- A file: its kind and size, and what `os.ReadFile` returns where it succeeds.
pub record FileState : Type 0 where
  pub kind : FileKind
  pub stat_size : ℕ
  pub readable : Bool
  pub content : Bytes

pub record BootFs : Type 0 where
  pub temp_dir_ok : Bool
  pub mount_ok : Bool
  pub efi_kind : FileKind
  pub boot_kind : FileKind
  pub loader : FileState
  pub map_file : FileState
  pub unmount_ok : Bool
  pub remove_ok : Bool

pub data UefiError : Type 0 where
  temp_dir_failed mount_failed missing_efi missing_boot unmount_failed remove_failed : UefiError
  lstat_failed not_bounded_regular unreadable changed_while_read bad_map_size : UefiError
  open_failed write_failed sync_failed close_failed reopen_failed short_read : UefiError
  source_layout written_layout : GptError → UefiError
  loader_error : LoaderError → UefiError
  build_failed written_fat : FatError → UefiError

abbrev is_directory : FileKind → Bool
is_directory directory = true
is_directory _ = false

abbrev is_regular : FileKind → Bool
is_regular regular = true
is_regular _ = false

abbrev exists : FileKind → Bool
exists absent = false
exists _ = true

unfoldable pub read_bounded_regular_file : FileState → ℕ → Result UefiError Bytes
read_bounded_regular_file file maximum = do
  reject_if (not (exists file.kind)) lstat_failed
  reject_if (not (is_regular file.kind) || file.stat_size == 0 || ltb maximum file.stat_size)
      not_bounded_regular
  reject_if (not file.readable) unreadable
  reject_if (not (length file.content == file.stat_size)) changed_while_read
  ok file.content

-- The body behind a mount that succeeded
unfoldable pub read_mounted : BootFs → Result UefiError (Bytes × Bytes)
unfolding read_bounded_regular_file
read_mounted fs = do
  reject_if (not (is_directory fs.efi_kind)) missing_efi
  reject_if (not (is_directory fs.boot_kind)) missing_boot
  loader ← read_bounded_regular_file fs.loader max_efi_loader_bytes
  wrap_err loader_error (validate_efi_loader loader)
  map_bytes ← read_bounded_regular_file fs.map_file max_efi_map_bytes
  reject_if (length map_bytes == 0 || not (length map_bytes % 4 == 0)) bad_map_size
  ok (loader, map_bytes)

-- The deferred clean-up joins its errors to the result: a failure of it fails the call.
abbrev cleaned {ℓ} : {A : Type ℓ} → Bool → UefiError → Result UefiError A → Result UefiError A
cleaned done e (err x) = err x
cleaned done e (ok a) = if done then ok a else err e

unfoldable pub read_uefi_boot_files : BootFs → Result UefiError (Bytes × Bytes)
read_uefi_boot_files fs =
    if not fs.temp_dir_ok
    then err temp_dir_failed
    else if not fs.mount_ok
    then err mount_failed
    else cleaned fs.remove_ok remove_failed (cleaned fs.unmount_ok unmount_failed (read_mounted fs))

-- What the calls on the image file answer. `WriteAt` reports a short write as an error.
-- The file is opened and closed twice: for the write, and for the read-back.
pub record ImageIo : Type 0 where
  pub open_ok : Bool
  pub write_ok : Bool
  pub sync_ok : Bool
  pub close_ok : Bool
  pub reopen_ok : Bool
  pub read_ok : Bool
  pub reclose_ok : Bool

-- Every call succeeds.
abbrev pub all_succeed : ImageIo
all_succeed = record {
  open_ok = true;
  write_ok = true;
  sync_ok = true;
  close_ok = true;
  reopen_ok = true;
  read_ok = true;
  reclose_ok = true;
}

-- `file.ReadAt(readback, off)`: a new slice of `n` bytes
abbrev pub read_at : Memory → ℕ → ℕ → Memory
read_at image off n i = if ltb i n then image (off + i) else 0

unfoldable pub prepare_uefi_image :
    (Bytes → ℕ) → (Bytes → Bytes) → BootFs → ImageIo → Memory → ℕ → Layout → Result UefiError Memory
prepare_uefi_image crc32 sha256 fs io image size layout = do
  boot ← wrap_err source_layout (validate_official_uefi_gpt crc32 image size layout)
  (loader, map_bytes) ← read_uefi_boot_files fs
  esp ←
      wrap_err build_failed
        (build_uefi_fat16 sha256 boot.start_sector boot.sectors loader map_bytes)
  let esp_bytes = boot.sectors * sector_size
  reject_if (not io.open_ok) open_failed
  reject_if (not io.write_ok) write_failed
  reject_if (not io.sync_ok) sync_failed
  reject_if (not io.close_ok) close_failed
  let prepared = blit image boot.offset_bytes esp_bytes esp
  again ← wrap_err written_layout (validate_official_uefi_gpt crc32 prepared size layout)
  reject_if (not io.reopen_ok) reopen_failed
  reject_if (not io.read_ok) short_read
  reject_if (not io.reclose_ok) close_failed
  let readback = read_at prepared boot.offset_bytes esp_bytes
  wrap_err written_fat
      (validate_uefi_fat16 readback esp_bytes boot.start_sector boot.sectors loader map_bytes)
  ok prepared
