-- ===== src/Mikrotik/FatCheck.antt =====
-- internal/mikrotik/fat16.go, validateUEFIFAT16: the prepared partition holds the two boot files.
use mikrotik_chr_script.Common.{ℕ, not, length}
use mikrotik_chr_script.Common.Bytes.{Bytes, byte_at, bytes_eq}
use mikrotik_chr_script.Common.Outcome.{Result, ◌>>=◌, ◌>>◌, reject_if}
use mikrotik_chr_script.Mikrotik.Memory.{Memory}
use mikrotik_chr_script.Mikrotik.FatReader.{
  FatError, missing_efi, missing_boot, missing_loader, missing_map, loader_differs, map_differs,
  name_efi, name_boot, name_loader, name_map, parse_fat16, find_directory_entry, read_chain,
  read_file, as_directory, as_file,
}

unfoldable pub validate_uefi_fat16 : Memory → ℕ → ℕ → ℕ → Bytes → Bytes → Result FatError (Unit {0})
validate_uefi_fat16 image size start_sector sectors loader map_bytes = do
  view ← parse_fat16 image size start_sector sectors
  efi ← as_directory missing_efi (find_directory_entry view.root view.root_size name_efi)
  efi_directory ← read_chain view efi.cluster
  boot ←
      as_directory missing_boot
        (find_directory_entry (byte_at efi_directory) (length efi_directory) name_boot)
  boot_directory ← read_chain view boot.cluster
  loader_entry ←
      as_file missing_loader
        (find_directory_entry (byte_at boot_directory) (length boot_directory) name_loader)
  loader_value ← read_file view loader_entry
  reject_if (not (bytes_eq loader_value loader)) loader_differs
  map_entry ← as_file missing_map (find_directory_entry view.root view.root_size name_map)
  map_value ← read_file view map_entry
  reject_if (not (bytes_eq map_value map_bytes)) map_differs
