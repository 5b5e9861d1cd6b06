-- ===== src/Disk/Staging.antt =====
-- internal/disk/detect.go: configureStaging and what it asks the host, which is the record `DiskHost`.
use mikrotik_chr_script.Common.{
  Bool, false, not, ◌&&◌, ◌||◌, List, [], ◌∷◌, ◌++◌, Option, none, some, ◌==◌, leb, if◌then◌else◌,
  any_of, all_of, length, get_or,
}
use mikrotik_chr_script.Common.Bytes.{Bytes, bytes_eq}
use mikrotik_chr_script.Common.Text.{codes, trim_space, is_empty}
use mikrotik_chr_script.Common.Paths.{join}
use mikrotik_chr_script.Network.Plan.{
  Issue, warning, blocking, blocker, issue_if, block_if, in_turn,
}
use mikrotik_chr_script.Disk.Fingerprint.{Fingerprint}
use mikrotik_chr_script.Disk.Sysfs.{Sysfs}
use mikrotik_chr_script.Disk.Graph.{BlockNode, Forest}

-- `findmnt` gives sources and file system types, `lsblk` the nodes; `order` is the order in which Go
-- visits the keys of the graph.
pub record DiskHost : Type 0 where
  pub run : List Bytes → Option Bytes
  pub look_path : Bytes → Bool
  pub findmnt : Bytes → Option (List (Bytes × Bytes))
  pub lsblk : Bytes → Option Forest
  pub order : List (Bytes × BlockNode) → List (Bytes × BlockNode)
  pub glob : Bytes → List Bytes
  pub sysfs : Sysfs

pub data InstallMethod : Type 0 where
  no_method rescue_direct staged_kexec staged_grub : InstallMethod

pub record TargetDisk : Type 0 where
  pub fingerprint : Fingerprint
  pub root_backed : Bool
  pub mounted : Bool
  pub method : InstallMethod
  pub kernel_path : Bytes
  pub initrd_path : Bytes
  pub kexec : Bool
  pub grub : Bool

abbrev no_fingerprint : Fingerprint
no_fingerprint = record {
  path = [];
  kernel_name = [];
  major_minor = [];
  size_bytes = 0;
  model = [];
  serial = [];
  wwn = [];
  transport = [];
  driver = [];
}

abbrev pub no_disk : TargetDisk
no_disk = record {
  fingerprint = no_fingerprint;
  root_backed = false;
  mounted = false;
  method = no_method;
  kernel_path = [];
  initrd_path = [];
  kexec = false;
  grub = false;
}

abbrev pub option_then {ℓ κ} : {A : Type ℓ} {B : Type κ} → Option A → (A → Option B) → Option B
option_then none f = none
option_then (some a) f = f a

abbrev pub one_element {ℓ} : {A : Type ℓ} → List A → Option A
one_element [] = none
one_element (a ∷ []) = some a
one_element (a ∷ b ∷ rest) = none

-- Whether `strconv.Atoi` of a text gives another number than 0
abbrev pub is_nonzero_number : Bytes → Bool
is_nonzero_number digits =
    not (is_empty digits)
    && all_of (λ c. leb 48 c && leb c 57) digits
    && any_of (λ c. not (c == 48)) digits

abbrev pub atoi_nonzero : Bytes → Bool
atoi_nonzero [] = false
atoi_nonzero (c ∷ s) =
    if c == b'+' || c == b'-' then is_nonzero_number s else is_nonzero_number (c ∷ s)

module _ (host : DiskHost) where
  abbrev pub secure_boot_enabled : Bool
  secure_boot_enabled =
      any_of
        (λ match. elim (host.sysfs.read match) [
          | none ↦ false
          | some content ↦ leb 5 (length content) && get_or content 4 0 == 1
        ])
        (host.glob (join host.sysfs.root (codes "sys/firmware/efi/efivars/SecureBoot-*")))

  abbrev pub kexec_disabled : Bool
  kexec_disabled =
      elim (host.sysfs.read (join host.sysfs.root (codes "proc/sys/kernel/kexec_load_disabled"))) [
        | none ↦ false
        | some content ↦ atoi_nonzero (trim_space content)
      ]

  abbrev pub grub_probe : Bytes → Option Bytes
  grub_probe target =
      host.run (codes "grub-probe" ∷ target ∷ join host.sysfs.root (codes "boot/grub/grubenv") ∷ [])

  -- Both answers of grub-probe: ext2, and no abstraction
  abbrev pub inspect_grub_environment : Bool
  inspect_grub_environment = elim (grub_probe (codes "--target=fs")) [
    | none ↦ false
    | some filesystem ↦
        if not (bytes_eq (trim_space filesystem) (codes "ext2"))
        then false
        else elim (grub_probe (codes "--target=abstraction")) [
          | none ↦ false
          | some abstraction ↦ is_empty (trim_space abstraction)
        ]
  ]

  abbrev pub has_grub_programs : Bool
  has_grub_programs =
      host.look_path (codes "grub-reboot")
      && host.look_path (codes "update-grub")
      && host.look_path (codes "grub-probe")
      && host.look_path (codes "grub-editenv")

  abbrev pub kexec_usable : Bool
  kexec_usable = host.look_path (codes "kexec") && not secure_boot_enabled && not kexec_disabled

  abbrev pub grub_usable : Bool
  grub_usable = has_grub_programs && inspect_grub_environment

  abbrev staging_method : InstallMethod
  staging_method =
      if kexec_usable then staged_kexec else if grub_usable then staged_grub else no_method

  abbrev pub staged : TargetDisk → Bytes → TargetDisk
  staged disk release = record disk {
    kernel_path = join host.sysfs.root (codes "boot/vmlinuz-" ++ release);
    initrd_path = join host.sysfs.root (codes "boot/initrd.img-" ++ release);
    kexec = kexec_usable;
    grub = grub_usable;
    method = staging_method;
  }

  -- What is missing for a staged boot. GRUB that is unfit is a warning beside a usable kexec.
  abbrev pub staging_inspections : TargetDisk → List (List Issue)
  staging_inspections disk =
      block_if (not (host.sysfs.exists disk.kernel_path)) (codes "kernel")
      ∷ block_if (not (host.sysfs.exists disk.initrd_path)) (codes "initramfs")
      ∷ block_if (not (host.look_path (codes "mkinitramfs"))) (codes "initramfs-builder")
      ∷ block_if (not (host.look_path (codes "lsinitramfs"))) (codes "initramfs-inspector")
      ∷ issue_if (has_grub_programs && not inspect_grub_environment)
          (if kexec_usable then warning else blocking) (codes "grub-one-shot")
      ∷ block_if (not kexec_usable && not grub_usable) (codes "staging")
      ∷ []

  unfoldable pub configure_staging : TargetDisk → List Issue → TargetDisk × List Issue
  configure_staging disk issues = elim (host.run (codes "uname" ∷ codes "-r" ∷ [])) [
    | none ↦ (disk, issues ++ blocker (codes "kernel") ∷ [])
    | some output ↦
        let found = staged disk (trim_space output) in
        (found, issues ++ in_turn (staging_inspections found))
  ]
