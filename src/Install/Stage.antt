-- ===== src/Install/Stage.antt =====
-- internal/install/stage.go: PrepareStage, which makes the files of a staged boot, and StageAndBoot for
-- the staged methods. copyFileAtomic and writeFileAtomic are one call each, since the temporary file of
-- one that fails is removed; permission bits are left out.
pub mod Quiet
pub mod Prepared
pub mod Unarmed
pub mod Removed
use mikrotik_chr_script.Common.{
  ℕ, ◌+◌, ◌-◌, ◌*◌, ◌/◌, ◌^◌, Bool, true, false, not, ◌&&◌, ◌||◌, ltb, ◌==◌, if◌then◌else◌, List,
  [], ◌∷◌, ◌++◌, Option, none, some, any_of,
}
use mikrotik_chr_script.Common.Bytes.{Bytes}
use mikrotik_chr_script.Common.Text.{
  codes, trim_space, trim_prefix, is_empty, has_prefix, contains_byte,
}
use mikrotik_chr_script.Common.Paths.{base, relative}
use mikrotik_chr_script.Common.Outcome.{Result, ok, err, reject_if, from_option, wrap_err}
use mikrotik_chr_script.Network.Address.{Parsers}
use mikrotik_chr_script.Disk.Staging.{
  InstallMethod, no_method, rescue_direct, staged_kexec, staged_grub, TargetDisk,
}
use mikrotik_chr_script.Install.Cmdline.{writer_cmdline}
use mikrotik_chr_script.Install.Manifest.{Manifest}
use mikrotik_chr_script.Install.Resources.{
  ResourceError, max_uint64, u64, ensure_filesystem_space, validate_initramfs_memory,
}
use mikrotik_chr_script.Install.Initramfs.{BuildError, build_initramfs, lines_of}
use mikrotik_chr_script.Install.Boot.{
  Stage, BootError, cleanup_stage, execute_kexec, execute_grub, attempt_removal,
}
use mikrotik_chr_script.Install.Calls.{
  Event, run, remove, remove_tree, make_dir, make_file, copy_file, gone, missing, not_empty,
  refused, Removal, History, Lookup, absent, unreadable, found, System, Step, ◌>>=◌, ◌>>◌,
  pure_step, run_command, perform, wrap_step,
}
pub use mikrotik_chr_script.Install.StagePlan.{
  StageError, kexec_stage_dir, grub_stage_dir, build_path, boot_initrd_path, grub_script_path,
  grub_config_path, grub_env_path, build_space_spare, boot_space_spare, is_staged, kernel_version,
  stated_size, kexec_stage, grub_stage, fs_uuid_probe, find_mount, list_initramfs, sync, as_boot,
  not_staged, by_method, is_none_left, with_method, has_line_break, is_bad_uuid, unsupported_method,
  no_kernel, no_initrd, no_cmdline, not_made, not_removed, no_image, empty_file, estimate_overflow,
  no_built, newline_in_cmdline, probe_failed, bad_uuid, mount_failed, not_on_boot, sync_failed,
  space, memory, build, boot, no_fallback,
}
unfoldable pub use mikrotik_chr_script.Install.StagePlan.{
  build_required, grub_relative_path, grub_script_text,
}

module _ (system : System) where
  abbrev pub remove_all : Bool → List Bytes → List Event × History → List Event × History
  remove_all directories [] s = s
  remove_all directories (p ∷ ps) s =
      remove_all directories ps (attempt_removal system directories p s)

  -- `directories` in the order of the loop, the last one that was made first
  unfoldable pub cleanup_partial_stage : List Bytes → List Bytes → History → List Event × History
  cleanup_partial_stage files directories h =
      remove_all true directories (remove_all false files ([], h))

  abbrev pub or_clean {ℓ} :
      {A : Type ℓ}
      → List Bytes
      → List Bytes
      → Result StageError A × History
      → Result (StageError × List Event) A × History
  or_clean files directories (ok a, h) = (ok a, h)
  or_clean files directories (err e, h) =
      let s = cleanup_partial_stage files directories h in (err (e, s.0), s.1)

  -- A phase of PrepareStage, with what the deferred clean-up removes where it fails
  abbrev pub partly {ℓ} :
      {A : Type ℓ} → List Bytes → List Bytes → Step StageError A → Step (StageError × List Event) A
  partly files directories m h = or_clean files directories (m h)

  abbrev pub need_size : Bytes → StageError → Step StageError ℕ
  need_size path e h = (from_option e (stated_size (system.stat h path)), h)

  abbrev pub check_space : Bytes → ℕ → Step StageError (Unit {0})
  check_space path required h =
      (wrap_err space (ensure_filesystem_space (system.statfs h path) required), h)

  -- `os.Remove`, of which IsNotExist is no error for a file that may be absent
  abbrev pub remove_step : Bool → Bytes → Step StageError (Unit {0})
  remove_step may_be_absent path h = (
    elim (system.removal h path) [
      | gone ↦ ok tt
      | missing ↦ if may_be_absent then ok tt else err not_removed
      | not_empty ↦ err not_removed
      | refused ↦ err not_removed
    ],
    remove path ∷ h,
  )

  -- The size is asked for behind the listing.
  abbrev pub check_memory : Bytes → ℕ → ℕ → Step StageError (Unit {0})
  check_memory path memory_bytes image_size h =
      let r = system.reply h (list_initramfs path) in
      let h1 = run (list_initramfs path) ∷ h in
      if memory_bytes == 0
      then (wrap_err memory (validate_initramfs_memory none none memory_bytes image_size), h)
      else (
        wrap_err memory (
            validate_initramfs_memory (if r.success then some r.output else none)
              (stated_size (system.stat h1 path)) memory_bytes image_size),
        h1,
      )

  unfoldable pub grub_script : Stage → Step StageError Bytes
  grub_script stage = do
    pure_step (reject_if (has_line_break stage.cmdline) newline_in_cmdline)
    uuid ← run_command system (fs_uuid_probe stage.kernel_path) probe_failed
    pure_step (reject_if (is_bad_uuid (trim_space uuid)) bad_uuid)
    mount ← run_command system (find_mount stage.kernel_path) mount_failed
    kernel ← pure_step (grub_relative_path stage.kernel_path (trim_space mount))
    initrd ← pure_step (grub_relative_path stage.initrd_path (trim_space mount))
    pure_step (ok (grub_script_text (trim_space uuid) kernel stage.cmdline initrd))

  -- The method, the files of the disk and the command line of the running kernel
  unfoldable pub check_disk : TargetDisk → Step StageError Bytes
  check_disk disk = do
    pure_step (reject_if (not (is_staged disk.method)) unsupported_method)
    kernel ← need_size disk.kernel_path no_kernel
    initrd ← need_size disk.initrd_path no_initrd
    (λ h. (from_option no_cmdline (system.read h (codes "/proc/cmdline")), h))

  abbrev pub boot_grub : Stage → Step (StageError × List Event) (Unit {0})
  boot_grub stage = wrap_step as_boot (execute_grub system stage)

  -- The sync, with the clean-up where it fails
  abbrev pub sync_stage : Stage → Step (StageError × List Event) (Unit {0})
  sync_stage stage h =
      let h1 = run sync ∷ h in
      let s = cleanup_stage system stage false false h1 in
      if (system.reply h sync).success then (ok tt, h1) else (err (sync_failed, s.0), s.1)

  module _ (parsers : Parsers) (clock : ℕ) (encode : Manifest → Bytes) where
    abbrev pub build_for : TargetDisk → Bytes → Bytes → Manifest → Step StageError (Unit {0})
    build_for disk executable image manifest = wrap_step build (
        build_initramfs system parsers clock encode (codes "/etc/initramfs-tools")
          (codes "/lib/modules") (kernel_version disk.kernel_path) build_path executable image
          manifest)

    -- Up to the method's own part: the build below the directory of kexec
    unfoldable pub build_stage :
        TargetDisk → Bytes → Bytes → Manifest → ℕ → Step StageError (Unit {0})
    build_stage disk image executable manifest memory_bytes = do
      remove_step true build_path
      image_size ← need_size image no_image
      initrd_size ← need_size disk.initrd_path no_initrd
      required ← pure_step (build_required image_size initrd_size)
      check_space kexec_stage_dir required
      build_for disk executable image manifest
      check_memory build_path memory_bytes manifest.image_size

    -- The copy of the built file to the boot file system, and the script
    unfoldable pub copy_stage : Stage → Step StageError Bytes
    copy_stage stage = do
      built ← need_size build_path no_built
      check_space grub_stage_dir (u64 (built + boot_space_spare))
      perform system (copy_file build_path boot_initrd_path) not_made
      remove_step false build_path
      grub_script stage

    abbrev pub finish_grub : TargetDisk → Bytes → Step (StageError × List Event) Stage
    finish_grub disk cmdline = do
      partly (build_path ∷ []) (kexec_stage_dir ∷ [])
          (perform system (make_dir grub_stage_dir) not_made)
      script ←
          partly (build_path ∷ boot_initrd_path ∷ []) (grub_stage_dir ∷ kexec_stage_dir ∷ [])
            (copy_stage (grub_stage disk cmdline))
      partly (build_path ∷ boot_initrd_path ∷ grub_script_path ∷ [])
          (grub_stage_dir ∷ kexec_stage_dir ∷ [])
          (perform system (make_file grub_script_path script) not_made)
      pure_step (ok (grub_stage disk cmdline))

    abbrev pub finish_stage : TargetDisk → Bytes → Step (StageError × List Event) Stage
    finish_stage disk cmdline =
        by_method disk.method (pure_step (ok (kexec_stage disk cmdline))) (finish_grub disk cmdline)
          (finish_grub disk cmdline)

    unfoldable pub prepare_stage :
        TargetDisk → Bytes → Bytes → Manifest → ℕ → Step (StageError × List Event) Stage
    prepare_stage disk image executable manifest memory_bytes = do
      cmdline ← partly [] [] (check_disk disk)
      partly [] [] (perform system (make_dir kexec_stage_dir) not_made)
      partly (build_path ∷ []) (kexec_stage_dir ∷ [])
          (build_stage disk image executable manifest memory_bytes)
      finish_stage disk (writer_cmdline cmdline)

    -- Behind a kexec that failed: the clean-up, and GRUB where the clean-up has no error and the disk
    -- has GRUB.
    abbrev pub fall_back :
        TargetDisk
        → Step (StageError × List Event) Stage
        → BootError × List Event
        → List Event × History
        → Result (StageError × List Event) (Unit {0}) × History
    fall_back disk prepare (e, failed) (cleaned, h) =
        if is_none_left cleaned && disk.grub
        then (wrap_step (not_staged (e, failed)) prepare >>= boot_grub) h
        else (err (boot e, failed ++ cleaned), h)

    abbrev pub after_kexec :
        TargetDisk
        → Stage
        → Step (StageError × List Event) Stage
        → Result (BootError × List Event) (Unit {0}) × History
        → Result (StageError × List Event) (Unit {0}) × History
    after_kexec disk stage prepare (ok u, h) = (ok u, h)
    after_kexec disk stage prepare (err e, h) =
        fall_back disk prepare e (cleanup_stage system stage false false h)

    abbrev pub unsupported :
        List Event × History → Result (StageError × List Event) (Unit {0}) × History
    unsupported (cleaned, h) = (err (unsupported_method, cleaned), h)

    abbrev pub boot_stage :
        TargetDisk
        → Step (StageError × List Event) Stage
        → Stage
        → Step (StageError × List Event) (Unit {0})
    boot_stage disk prepare stage h =
        by_method stage.method (after_kexec disk stage prepare (execute_kexec system stage h))
          (boot_grub stage h) (unsupported (cleanup_stage system stage false false h))

    -- StageAndBoot behind its first branch, which hands a disk with the direct method to `run_writer`
    unfoldable pub stage_and_boot :
        TargetDisk → Bytes → Bytes → Manifest → ℕ → Step (StageError × List Event) (Unit {0})
    stage_and_boot disk image executable manifest memory_bytes = do
      stage ← prepare_stage disk image executable manifest memory_bytes
      sync_stage stage
      boot_stage disk
          (prepare_stage (with_method staged_grub disk) image executable manifest memory_bytes)
          stage
