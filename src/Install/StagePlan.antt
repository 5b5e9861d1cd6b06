-- ===== src/Install/StagePlan.antt =====
-- internal/install/stage.go: the values that PrepareStage and StageAndBoot work with: the errors, the
-- paths, the stages, the script of GRUB and the room for the build.
use mikrotik_chr_script.Common.{
  ℕ, ◌+◌, ◌-◌, ◌*◌, ◌/◌, ◌^◌, Bool, true, false, ◌||◌, ltb, ◌==◌, if◌then◌else◌, List, [], ◌∷◌,
  ◌++◌, Option, none, some,
}
use mikrotik_chr_script.Common.Bytes.{Bytes}
use mikrotik_chr_script.Common.Text.{codes, trim_prefix, is_empty, has_prefix, contains_byte}
use mikrotik_chr_script.Common.Paths.{base, relative}
use mikrotik_chr_script.Common.Outcome.{Result, ok, err}
use mikrotik_chr_script.Disk.Staging.{
  InstallMethod, no_method, rescue_direct, staged_kexec, staged_grub, TargetDisk,
}
use mikrotik_chr_script.Install.Resources.{ResourceError, max_uint64, u64}
use mikrotik_chr_script.Install.Initramfs.{BuildError, lines_of}
use mikrotik_chr_script.Install.Boot.{Stage, BootError}
use mikrotik_chr_script.Install.Calls.{Event, Lookup, absent, unreadable, found}

pub data StageError : Type 0 where
  unsupported_method no_kernel no_initrd no_cmdline not_made not_removed no_image : StageError
  empty_file estimate_overflow no_built newline_in_cmdline probe_failed bad_uuid : StageError
  mount_failed not_on_boot sync_failed : StageError
  space : ResourceError → StageError
  memory : ResourceError → StageError
  build : BuildError → StageError
  boot : BootError → StageError
  no_fallback : BootError → StageError → StageError

abbrev pub kexec_stage_dir : Bytes
kexec_stage_dir = codes "/var/lib/chr-install"

abbrev pub grub_stage_dir : Bytes
grub_stage_dir = codes "/boot/chr-install"

abbrev pub build_path : Bytes
build_path = codes "/var/lib/chr-install/initrd.img"

abbrev pub boot_initrd_path : Bytes
boot_initrd_path = codes "/boot/chr-install/initrd.img"

abbrev pub grub_script_path : Bytes
grub_script_path = codes "/etc/grub.d/42_chr_install"

abbrev pub grub_config_path : Bytes
grub_config_path = codes "/boot/grub/grub.cfg"

abbrev pub grub_env_path : Bytes
grub_env_path = codes "/boot/grub/grubenv"

abbrev pub build_space_spare : ℕ
build_space_spare = 128 * 1024 * 1024

abbrev pub boot_space_spare : ℕ
boot_space_spare = 32 * 1024 * 1024

abbrev pub is_staged : InstallMethod → Bool
is_staged no_method = false
is_staged rescue_direct = false
is_staged staged_kexec = true
is_staged staged_grub = true

abbrev pub kernel_version : Bytes → Bytes
kernel_version path = trim_prefix (codes "vmlinuz-") (base path)

abbrev pub stated_size : Lookup → Option ℕ
stated_size absent = none
stated_size unreadable = none
stated_size (found kind n) = some n

abbrev pub kexec_stage : TargetDisk → Bytes → Stage
kexec_stage disk cmdline = record {
  method = disk.method;
  kernel_path = disk.kernel_path;
  initrd_path = build_path;
  cmdline = cmdline;
  grub_script = [];
  grub_config_path = [];
  grub_env_path = [];
  build_dir = kexec_stage_dir;
  stage_dir = kexec_stage_dir;
}

abbrev pub grub_stage : TargetDisk → Bytes → Stage
grub_stage disk cmdline = record {
  method = disk.method;
  kernel_path = disk.kernel_path;
  initrd_path = boot_initrd_path;
  cmdline = cmdline;
  grub_script = grub_script_path;
  grub_config_path = grub_config_path;
  grub_env_path = grub_env_path;
  build_dir = kexec_stage_dir;
  stage_dir = grub_stage_dir;
}

-- `relative` is filepath.Rel on two absolute paths: what stands below the mount point.
unfoldable pub grub_relative_path : Bytes → Bytes → Result StageError Bytes
grub_relative_path path mountpoint = elim (relative mountpoint path) [
  | none ↦ err not_on_boot
  | some below ↦
      if is_empty below || has_prefix (codes "..") below then err not_on_boot else ok (b'/' ∷ below)
]

unfoldable pub grub_script_text : Bytes → Bytes → Bytes → Bytes → Bytes
grub_script_text uuid kernel cmdline initrd = lines_of (
    codes "#!/bin/sh"
    ∷ codes "cat <<'CHR_INSTALL_GRUB_ENTRY'"
    ∷ codes "if [ -s $prefix/grubenv ]; then"
    ∷ codes "    load_env next_entry"
    ∷ codes "fi"
    ∷ codes "if [ \"${next_entry}\" = \"chr-install-writer\" ]; then"
    ∷ codes "    set default=\"chr-install-writer\""
    ∷ codes "    set next_entry="
    ∷ codes "    save_env next_entry"
    ∷ codes "fi"
    ∷ codes "menuentry 'CHR Install Writer' --id 'chr-install-writer' {"
    ∷ (codes "    search --no-floppy --fs-uuid --set=root " ++ uuid)
    ∷ (codes "    linux " ++ kernel ++ 32 ∷ cmdline)
    ∷ (codes "    initrd " ++ initrd)
    ∷ codes "}"
    ∷ codes "CHR_INSTALL_GRUB_ENTRY"
    ∷ [])

abbrev pub has_line_break : Bytes → Bool
has_line_break s = contains_byte 10 s || contains_byte 13 s

abbrev pub is_bad_uuid : Bytes → Bool
is_bad_uuid s = is_empty s || contains_byte 32 s || has_line_break s || contains_byte 9 s

abbrev pub fs_uuid_probe : Bytes → List Bytes
fs_uuid_probe path = codes "grub-probe" ∷ codes "--target=fs_uuid" ∷ path ∷ []

abbrev pub find_mount : Bytes → List Bytes
find_mount path =
    codes "findmnt" ∷ codes "-n" ∷ codes "-o" ∷ codes "TARGET" ∷ codes "-T" ∷ path ∷ []

abbrev pub list_initramfs : Bytes → List Bytes
list_initramfs path = codes "lsinitramfs" ∷ codes "-l" ∷ path ∷ []

-- The estimate of the room for the build, in uint64
unfoldable pub build_required : ℕ → ℕ → Result StageError ℕ
build_required image initrd =
    if image == 0 || initrd == 0
    then err empty_file
    else if ltb (u64 (max_uint64 + 2 ^ 64 - image - build_space_spare) / 4) initrd
    then err estimate_overflow
    else ok (u64 (u64 (image + 4 * initrd) + build_space_spare))

abbrev pub sync : List Bytes
sync = codes "sync" ∷ []

abbrev pub as_boot : BootError × List Event → StageError × List Event
as_boot (e, failed) = (boot e, failed)

-- The error of kexec, joined with that of the fallback that could not be staged
abbrev pub not_staged : BootError × List Event → StageError × List Event → StageError × List Event
not_staged (e, failed) (problem, cleaned) = (no_fallback e problem, failed ++ cleaned)

-- The part of kexec, that of GRUB, and that of every other method
abbrev pub by_method {ℓ} : {A : Type ℓ} → InstallMethod → A → A → A → A
by_method no_method kexec grub other = other
by_method rescue_direct kexec grub other = other
by_method staged_kexec kexec grub other = kexec
by_method staged_grub kexec grub other = grub

abbrev pub is_none_left : List Event → Bool
is_none_left [] = true
is_none_left (e ∷ es) = false

abbrev pub with_method : InstallMethod → TargetDisk → TargetDisk
with_method method disk = record {
  fingerprint = disk.fingerprint;
  root_backed = disk.root_backed;
  mounted = disk.mounted;
  method = method;
  kernel_path = disk.kernel_path;
  initrd_path = disk.initrd_path;
  kexec = disk.kexec;
  grub = disk.grub;
}
