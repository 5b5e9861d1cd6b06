-- ===== src/Mikrotik/FatWriter/BootSector.antt =====
-- On internal/mikrotik/fat16.go: the boot sector of the image.
use mikrotik_chr_script.Common.{ℕ, ◌≤◌, ◌<◌, ◌≡◌, refl, arith, true}
use mikrotik_chr_script.Common.Bytes.{Bytes}
use mikrotik_chr_script.Mikrotik.Memory.{Memory, read_bytes}
use mikrotik_chr_script.Mikrotik.FatReader.{boot_parameters_ok}
use mikrotik_chr_script.Mikrotik.Mbr.{official_boot_start_sector, official_boot_sectors}
use mikrotik_chr_script.Mikrotik.FatWriter.{write_boot_sector}

pub write_boot_sector-parameters :
    (sha256 : Bytes → Bytes) (m : Memory) (loader map_bytes : Bytes)
    → boot_parameters_ok
        (write_boot_sector sha256 m official_boot_start_sector official_boot_sectors loader
          map_bytes)
        official_boot_start_sector
        official_boot_sectors
      ≡ true
unfolding write_boot_sector read_bytes
write_boot_sector-parameters sha256 m loader map_bytes = refl

pub write_boot_sector-else :
    (sha256 : Bytes → Bytes) (m : Memory) (start_sector sectors : ℕ) (loader map_bytes : Bytes)
    (j : ℕ)
    → 512 ≤ j
    → write_boot_sector sha256 m start_sector sectors loader map_bytes j ≡ m j
unfolding write_boot_sector
write_boot_sector-else sha256 m start_sector sectors loader map_bytes j h = ground arith

-- The parameters stand in the first 512 bytes.
pub boot_parameters_ok-cong :
    (m k : Memory) (start_sector sectors : ℕ)
    → ((j : ℕ) → j < 512 → m j ≡ k j)
    → boot_parameters_ok k start_sector sectors ≡ true
    → boot_parameters_ok m start_sector sectors ≡ true
unfolding read_bytes
boot_parameters_ok-cong m k start_sector sectors same h =
    simp
      (
        same 510 (omega arith),
        same 511 (omega arith),
        same 11 (omega arith),
        same 12 (omega arith),
        same 13 (omega arith),
        same 14 (omega arith),
        same 15 (omega arith),
        same 16 (omega arith),
        same 17 (omega arith),
        same 18 (omega arith),
        same 22 (omega arith),
        same 23 (omega arith),
        same 28 (omega arith),
        same 29 (omega arith),
        same 30 (omega arith),
        same 31 (omega arith),
        same 32 (omega arith),
        same 33 (omega arith),
        same 34 (omega arith),
        same 35 (omega arith),
        same 54 (omega arith),
        same 55 (omega arith),
        same 56 (omega arith),
        same 57 (omega arith),
        same 58 (omega arith),
        same 59 (omega arith),
        same 60 (omega arith),
        same 61 (omega arith),
      )
      h
