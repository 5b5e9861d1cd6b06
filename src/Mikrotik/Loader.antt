-- ===== src/Mikrotik/Loader.antt =====
-- internal/mikrotik/fat16.go, validateEFILoader: the checks on BOOTX64.EFI.
use mikrotik_chr_script.Common.{
  ℕ, ◌+◌, Bool, not, ◌||◌, ltb, ◌==◌, length, slice, [], ◌∷◌, ◌≡◌, arith, ◌≤◌, ◌*◌,
}
use mikrotik_chr_script.Common.Bytes.{Bytes, byte_at, le16, le32, bytes_eq}
use mikrotik_chr_script.Common.Outcome.{Result, ok, ◌>>◌, reject_if}

abbrev pub max_efi_loader_bytes : ℕ
max_efi_loader_bytes = 16 * 1024 * 1024

abbrev pub max_efi_map_bytes : ℕ
max_efi_map_bytes = 1024 * 1024

pub data LoaderError : Type 0 where
  not_bounded_efi no_pe_header : LoaderError

-- 'P', 'E', 0, 0
abbrev pe_magic : Bytes
pe_magic = 80 ∷ 69 ∷ 0 ∷ 0 ∷ []

-- The first condition, then the second: each is an early return.
abbrev pub is_bounded_efi : Bytes → Bool
is_bounded_efi loader = not (
    ltb (length loader) 0x88
    || ltb max_efi_loader_bytes (length loader)
    || not (byte_at loader 0 == b'M')
    || not (byte_at loader 1 == b'Z'))

abbrev pub has_pe_header : Bytes → Bool
has_pe_header loader =
    let pe_offset = le32 loader 0x3c in
    not (
      ltb (length loader) (pe_offset + 6)
      || not (bytes_eq (slice loader pe_offset (pe_offset + 4)) pe_magic)
      || not (le16 loader (pe_offset + 4) == 0x8664))

unfoldable pub validate_efi_loader : Bytes → Result LoaderError (Unit {0})
validate_efi_loader loader = do
  reject_if (not (is_bounded_efi loader)) not_bounded_efi
  reject_if (not (has_pe_header loader)) no_pe_header

pub validate_efi_loader_bounds :
    (loader : Bytes)
    → validate_efi_loader loader ≡ ok tt
    → (0x88 ≤ length loader) × (length loader ≤ max_efi_loader_bytes)
unfolding validate_efi_loader
validate_efi_loader_bounds loader good = ground arith
