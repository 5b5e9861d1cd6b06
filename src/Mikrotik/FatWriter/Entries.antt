-- ===== src/Mikrotik/FatWriter/Entries.antt =====
-- On internal/mikrotik/fat16.go: the directories that buildUEFIFAT16 writes.
use mikrotik_chr_script.Common.{ℕ, ◌+◌, ◌^◌, ◌≤◌, ◌<◌, ◌≡◌, refl, ◌⊎◌, length, arith, ◌∙◌}
use mikrotik_chr_script.Common.Bytes.{Bytes}
use mikrotik_chr_script.Mikrotik.Memory.{Memory, read_bytes}
use mikrotik_chr_script.Mikrotik.FatReader.{
  root_offset, name_volume, name_efi, name_boot, name_loader, name_map, name_current, name_parent,
  cluster_offset,
}
use mikrotik_chr_script.Mikrotik.FatReader.Find.{HasEntry}
use mikrotik_chr_script.Mikrotik.FatWriter.{
  Volume, Allocated, write_directory_entry, write_directories,
}

abbrev pub placed : Volume → ℕ → Allocated
placed v map_start = record { efi = 2; boot = 3; loader = 4; map_start = map_start; volume = v }

module _ (m : Memory) (v : Volume) (map_start loader_size map_size : ℕ) where
  abbrev written : Memory
  written = write_directories m (placed v map_start) loader_size map_size

  pub root_volume : HasEntry written root_offset name_volume 0x08 0 0
  unfolding write_directories write_directory_entry read_bytes
  root_volume = record { name_at = refl; attributes_at = refl; cluster_at = refl; size_at = refl }

  pub root_efi : HasEntry written (root_offset + 32) name_efi 0x10 2 0
  unfolding write_directories write_directory_entry read_bytes
  root_efi = record { name_at = refl; attributes_at = refl; cluster_at = refl; size_at = refl }

  pub root_map :
      map_start < 2 ^ 16
      → map_size < 2 ^ 32
      → HasEntry written (root_offset + 64) name_map 0x20 map_start map_size
  unfolding write_directories write_directory_entry read_bytes
  root_map h1 h2 = record {
    name_at = refl;
    attributes_at = refl;
    cluster_at = omega arith;
    size_at = omega arith;
  }

  pub efi_current : HasEntry written (cluster_offset 2) name_current 0x10 2 0
  unfolding write_directories write_directory_entry read_bytes
  efi_current = record { name_at = refl; attributes_at = refl; cluster_at = refl; size_at = refl }

  pub efi_parent : HasEntry written (cluster_offset 2 + 32) name_parent 0x10 0 0
  unfolding write_directories write_directory_entry read_bytes
  efi_parent = record { name_at = refl; attributes_at = refl; cluster_at = refl; size_at = refl }

  pub efi_boot : HasEntry written (cluster_offset 2 + 64) name_boot 0x10 3 0
  unfolding write_directories write_directory_entry read_bytes
  efi_boot = record { name_at = refl; attributes_at = refl; cluster_at = refl; size_at = refl }

  pub boot_current : HasEntry written (cluster_offset 3) name_current 0x10 3 0
  unfolding write_directories write_directory_entry read_bytes
  boot_current = record { name_at = refl; attributes_at = refl; cluster_at = refl; size_at = refl }

  pub boot_parent : HasEntry written (cluster_offset 3 + 32) name_parent 0x10 2 0
  unfolding write_directories write_directory_entry read_bytes
  boot_parent = record { name_at = refl; attributes_at = refl; cluster_at = refl; size_at = refl }

  pub boot_loader :
      loader_size < 2 ^ 32 → HasEntry written (cluster_offset 3 + 64) name_loader 0x20 4 loader_size
  unfolding write_directories write_directory_entry read_bytes
  boot_loader h = record {
    name_at = refl;
    attributes_at = refl;
    cluster_at = refl;
    size_at = omega arith;
  }

-- An entry is 32 bytes, and nothing else is written.
write_directory_entry-else :
    (m : Memory) (off : ℕ) (name : Bytes) (attributes cluster size j : ℕ)
    → length name ≡ 11
    → (j < off) ⊎ (off + 32 ≤ j)
    → write_directory_entry m off name attributes cluster size j ≡ m j
unfolding write_directory_entry
write_directory_entry-else m off name attributes cluster size j e out = ground arith

pub write_directories-else :
    (m : Memory) (v : Volume) (map_start loader_size map_size j : ℕ)
    → (j < root_offset) ⊎ (cluster_offset 4 ≤ j)
    → write_directories m (placed v map_start) loader_size map_size j ≡ m j
unfolding write_directories
write_directories-else m v map_start loader_size map_size j out =
    write_directory_entry-else _ _ _ _ _ _ j refl (omega arith)
    ∙ write_directory_entry-else _ _ _ _ _ _ j refl (omega arith)
    ∙ write_directory_entry-else _ _ _ _ _ _ j refl (omega arith)
    ∙ write_directory_entry-else _ _ _ _ _ _ j refl (omega arith)
    ∙ write_directory_entry-else _ _ _ _ _ _ j refl (omega arith)
    ∙ write_directory_entry-else _ _ _ _ _ _ j refl (omega arith)
    ∙ write_directory_entry-else _ _ _ _ _ _ j refl (omega arith)
    ∙ write_directory_entry-else _ _ _ _ _ _ j refl (omega arith)
    ∙ write_directory_entry-else _ _ _ _ _ _ j refl (omega arith)
