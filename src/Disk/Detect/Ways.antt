-- ===== src/Disk/Detect/Ways.antt =====
-- On configureStaging of internal/disk/detect.go: what a host has where it can boot by kexec or by GRUB.
use mikrotik_chr_script.Common.{
  ◌<◌, ◌≡◌, ◌≢◌, refl, subst, ◌⊎◌, inl, inr, Bool, true, false, ◌&&◌, List, [], ◌∷◌, none, some,
  length, get_or, any_of, leb, ◌==◌, In, Bool-cases, Option-cases, arith,
}
use mikrotik_chr_script.Common.Bytes.{Bytes, bytes_eq→eq}
use mikrotik_chr_script.Common.Text.{codes, trim_space, is_empty→eq}
use mikrotik_chr_script.Common.Paths.{join}
use mikrotik_chr_script.Disk.Staging.{
  DiskHost, staged_kexec, staged_grub, TargetDisk, kexec_usable, grub_usable, kexec_disabled,
  has_grub_programs, inspect_grub_environment, grub_probe, atoi_nonzero,
}

both : (a b : Bool) → (a && b) ≡ true → (a ≡ true) × (b ≡ true)
both true b h = (refl, h)
both false b h = absurd cc

all_four :
    (a b c d : Bool) → (a && b && c && d) ≡ true → (a ≡ true) × (b ≡ true) × (c ≡ true) × (d ≡ true)
all_four true true true d h = (refl, refl, refl, h)
all_four true true false d h = absurd cc
all_four true false c d h = absurd cc
all_four false b c d h = absurd cc

module _ (host : DiskHost) where
  -- kexec is there; no EFI variable of Secure Boot has a 1 behind its four bytes of attributes; and the
  -- kernel's switch against kexec, where it can be read, is 0 or no number.
  pub record CanKexec : Type 0 where
    pub program : host.look_path (codes "kexec") ≡ true
    pub no_secure_boot :
        (file content : Bytes)
        → In file (host.glob (join host.sysfs.root (codes "sys/firmware/efi/efivars/SecureBoot-*")))
        → host.sysfs.read file ≡ some content
        → (length content < 5) ⊎ (get_or content 4 0 ≢ 1)
    pub allowed :
        (content : Bytes)
        → host.sysfs.read (join host.sysfs.root (codes "proc/sys/kernel/kexec_load_disabled"))
          ≡ some content
        → atoi_nonzero (trim_space content) ≡ false

  -- The four programs of GRUB are there, and its environment block stands on ext2 without a layer
  -- between.
  pub record CanGrub : Type 0 where
    pub reboot : host.look_path (codes "grub-reboot") ≡ true
    pub update : host.look_path (codes "update-grub") ≡ true
    pub probe : host.look_path (codes "grub-probe") ≡ true
    pub edit : host.look_path (codes "grub-editenv") ≡ true
    pub fs : Bytes
    pub fs_read : grub_probe host (codes "--target=fs") ≡ some fs
    pub ext2 : trim_space fs ≡ codes "ext2"
    pub layers : Bytes
    pub layers_read : grub_probe host (codes "--target=abstraction") ≡ some layers
    pub plain : trim_space layers ≡ []

  -- A staged boot by kexec, where that is usable, or by GRUB
  pub record IsStaged (disk : TargetDisk) : Type 0 where
    pub kernel_ok : host.sysfs.exists disk.kernel_path ≡ true
    pub initrd_ok : host.sysfs.exists disk.initrd_path ≡ true
    pub builder_ok : host.look_path (codes "mkinitramfs") ≡ true
    pub inspector_ok : host.look_path (codes "lsinitramfs") ≡ true
    pub method_ok :
        ((disk.method ≡ staged_kexec) × CanKexec)
        ⊎ ((disk.method ≡ staged_grub) × (kexec_usable host ≡ false) × CanGrub)

  no_secure_boot_of :
      (files : List Bytes) (file content : Bytes)
      → any_of
          (λ match. elim (host.sysfs.read match) [
            | none ↦ false
            | some text ↦ leb 5 (length text) && get_or text 4 0 == 1
          ])
          files
        ≡ false
      → In file files
      → host.sysfs.read file ≡ some content
      → (length content < 5) ⊎ (get_or content 4 0 ≢ 1)
  no_secure_boot_of [] file content h absent e = elim absent [ ]
  no_secure_boot_of (x ∷ xs) file content h (inr later) e =
      no_secure_boot_of xs file content (ground arith) later e
  no_secure_boot_of (x ∷ xs) file content h (inl same) e =
      let read : host.sysfs.read x ≡ some content =
        subst (λ y. host.sysfs.read y ≡ some content) same e in
      let unset : (leb 5 (length content) && get_or content 4 0 == 1) ≡ false =
        ground (arith, (rw read at h)) in
      elim (Bool-cases (leb 5 (length content))) [
        | inl long ↦ inr (λ one. ground arith)
        | inr short ↦ inl (ground arith)
      ]

  kexec_usable-CanKexec : kexec_usable host ≡ true → CanKexec
  kexec_usable-CanKexec h = record {
    program = ground arith;
    no_secure_boot = λ file content listed e.
        no_secure_boot_of
          (host.glob (join host.sysfs.root (codes "sys/firmware/efi/efivars/SecureBoot-*"))) file
          content (ground arith) listed e;
    allowed = λ content e.
        let off : kexec_disabled host ≡ false = ground arith in (rw (e, kexec_disabled) at off);
  }

  environment-CanGrub :
      inspect_grub_environment host ≡ true
      → (fs : Bytes) × (layers : Bytes) × (grub_probe host (codes "--target=fs") ≡ some fs)
        × (trim_space fs ≡ codes "ext2")
        × (grub_probe host (codes "--target=abstraction") ≡ some layers)
        × (trim_space layers ≡ [])
  environment-CanGrub h = elim (Option-cases (grub_probe host (codes "--target=fs"))) [
    | inl e ↦ absurd (let failed = rw (e, inspect_grub_environment) at h in cc)
    | inr (fs, e) ↦ elim (Option-cases (grub_probe host (codes "--target=abstraction"))) [
      | inl e' ↦ absurd (let failed = rw (e, e', inspect_grub_environment) at h in ground arith)
      | inr (layers, e') ↦
          let passed = rw (e, e', inspect_grub_environment) at h in
          (
            fs,
            layers,
            e,
            bytes_eq→eq (trim_space fs) (codes "ext2") (ground arith),
            e',
            is_empty→eq (trim_space layers) (ground arith),
          )
    ]
  ]

  grub_usable-CanGrub : grub_usable host ≡ true → CanGrub
  grub_usable-CanGrub h =
      let (programs, environment) =
        both (has_grub_programs host) (inspect_grub_environment host) h in
      let (reboot, update, probe, edit) =
        all_four (host.look_path (codes "grub-reboot")) (host.look_path (codes "update-grub"))
          (host.look_path (codes "grub-probe")) (host.look_path (codes "grub-editenv")) programs in
      let (fs, layers, fs_read, ext2, layers_read, plain) = environment-CanGrub environment in
      record {
        reboot = reboot;
        update = update;
        probe = probe;
        edit = edit;
        fs = fs;
        fs_read = fs_read;
        ext2 = ext2;
        layers = layers;
        layers_read = layers_read;
        plain = plain;
      }

  pub method_of :
      (disk : TargetDisk)
      → ((disk.method ≡ staged_kexec) × (kexec_usable host ≡ true))
        ⊎ ((disk.method ≡ staged_grub) × (kexec_usable host ≡ false) × (grub_usable host ≡ true))
      → ((disk.method ≡ staged_kexec) × CanKexec)
        ⊎ ((disk.method ≡ staged_grub) × (kexec_usable host ≡ false) × CanGrub)
  method_of disk (inl (method, usable)) = inl (method, kexec_usable-CanKexec usable)
  method_of disk (inr (method, unusable, usable)) =
      inr (method, unusable, grub_usable-CanGrub usable)
