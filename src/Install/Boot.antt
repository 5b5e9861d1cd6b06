-- ===== src/Install/Boot.antt =====
-- internal/install/stage.go: cleanupStage, executeKexec, executeGRUB and the checks in front of the
-- reboot. The joined errors of a clean-up are the list of the calls that failed.
pub mod Reboot
pub mod Grub
pub mod Kexec
use mikrotik_chr_script.Common.{
  ℕ, Bool, true, false, not, ◌&&◌, ◌||◌, ◌==◌, if◌then◌else◌, length, List, [], ◌∷◌, ◌++◌, Option,
  none, some, any_of, all_of,
}
use mikrotik_chr_script.Common.Bytes.{Bytes, bytes_eq}
use mikrotik_chr_script.Common.Text.{codes, trim_space, is_empty, contains, split}
use mikrotik_chr_script.Common.Outcome.{Result, ok, err, reject_if}
use mikrotik_chr_script.Disk.Staging.{InstallMethod}
use mikrotik_chr_script.Install.Calls.{
  Event, run, remove, Removal, gone, missing, not_empty, refused, History, System, Step, ◌>>=◌,
  ◌>>◌, pure_step, run_command,
}

pub record Stage : Type 0 where
  pub method : InstallMethod
  pub kernel_path : Bytes
  pub initrd_path : Bytes
  pub cmdline : Bytes
  pub grub_script : Bytes
  pub grub_config_path : Bytes
  pub grub_env_path : Bytes
  pub build_dir : Bytes
  pub stage_dir : Bytes

pub data BootError : Type 0 where
  load_failed cleanup_failed kexec_failed update_failed read_config incomplete_config : BootError
  probe_failed wrong_filesystem wrong_abstraction arm_failed list_failed not_armed reboot_failed :
      BootError

abbrev pub writer_entry : Bytes
writer_entry = codes "chr-install-writer"

abbrev pub update_grub : List Bytes
update_grub = codes "update-grub" ∷ []

abbrev pub arm : List Bytes
arm = codes "grub-reboot" ∷ writer_entry ∷ []

abbrev pub unset : Bytes → List Bytes
unset path = codes "grub-editenv" ∷ path ∷ codes "unset" ∷ codes "next_entry" ∷ []

abbrev pub list_environment : Bytes → List Bytes
list_environment path = codes "grub-editenv" ∷ path ∷ codes "list" ∷ []

abbrev pub probe : Bytes → Bytes → List Bytes
probe target path = codes "grub-probe" ∷ target ∷ path ∷ []

abbrev pub systemctl : Bytes → List Bytes
systemctl verb = codes "systemctl" ∷ verb ∷ []

abbrev pub reboot : List Bytes
reboot = codes "reboot" ∷ []

abbrev pub kexec : Bytes → List Bytes
kexec flag = codes "kexec" ∷ flag ∷ []

abbrev pub load : Stage → List Bytes
load s =
    codes "kexec"
    ∷ codes "-l"
    ∷ s.kernel_path
    ∷ (codes "--initrd=" ++ s.initrd_path)
    ∷ (codes "--append=" ++ s.cmdline)
    ∷ []

-- Whether the end of a removal is an error: for a directory, not where it is not empty.
abbrev pub is_failure : Bool → Removal → Bool
is_failure directory gone = false
is_failure directory missing = false
is_failure directory not_empty = not directory
is_failure directory refused = true

-- An error of the body is joined with those of the deferred clean-up.
abbrev pub joined :
    BootError → List Event × History → Result (BootError × List Event) (Unit {0}) × History
joined e (failed, h) = (err (e, failed), h)

abbrev pub required_lines : List Bytes
required_lines =
    codes "load_env next_entry"
    ∷ codes "if [ \"${next_entry}\" = \"chr-install-writer\" ]; then"
    ∷ codes "set default=\"chr-install-writer\""
    ∷ codes "set next_entry="
    ∷ codes "save_env next_entry"
    ∷ codes "menuentry 'CHR Install Writer' --id 'chr-install-writer'"
    ∷ []

abbrev pub is_complete : Bytes → Bool
is_complete configuration = all_of (λ line. contains line configuration) required_lines

abbrev check_configuration : Option Bytes → Result BootError (Unit {0})
check_configuration none = err read_config
check_configuration (some configuration) =
    reject_if (not (is_complete configuration)) incomplete_config

abbrev pub is_armed_line : Bytes → Bool
is_armed_line line = bytes_eq (trim_space line) (codes "next_entry=chr-install-writer")

module _ (system : System) where
  -- A call of the clean-up: the calls that failed so far, and the history
  abbrev pub attempt : List Bytes → List Event × History → List Event × History
  attempt argv (failed, h) =
      (if (system.reply h argv).success then failed else failed ++ run argv ∷ [], run argv ∷ h)

  abbrev pub attempt_removal : Bool → Bytes → List Event × History → List Event × History
  attempt_removal directory path (failed, h) = (
    if is_failure directory (system.removal h path) then failed ++ remove path ∷ [] else failed,
    remove path ∷ h,
  )

  abbrev pub remove_file : Bytes → List Event × History → List Event × History
  remove_file path s = if is_empty path then s else attempt_removal false path s

  abbrev pub remove_directory : Bytes → List Event × History → List Event × History
  remove_directory path s =
      if bytes_eq path (codes ".") || is_empty path then s else attempt_removal true path s

  unfoldable pub cleanup_stage : Stage → Bool → Bool → History → List Event × History
  cleanup_stage stage clear_next_entry refresh h =
      let s1 =
        if clear_next_entry && not (is_empty stage.grub_env_path)
        then attempt (unset stage.grub_env_path) ([], h)
        else ([], h) in
      let s2 = remove_file stage.initrd_path (remove_file stage.grub_script s1) in
      let s3 = remove_directory stage.build_dir (remove_directory stage.stage_dir s2) in
      if refresh then attempt update_grub s3 else s3

  abbrev second_try : List Bytes → BootError → Step BootError (Unit {0})
  second_try argv e h = ((if (system.reply h argv).success then ok tt else err e), run argv ∷ h)

  -- `systemctl`, and another command where it fails
  abbrev pub boot_by : List Bytes → List Bytes → BootError → Step BootError (Unit {0})
  boot_by first second e h =
      if (system.reply h first).success
      then (ok tt, run first ∷ h)
      else second_try second e (run first ∷ h)

  abbrev pub after_cleanup : List Event × History → Result BootError (Unit {0}) × History
  after_cleanup ([], h) = boot_by (systemctl (codes "kexec")) (kexec (codes "-e")) kexec_failed h
  after_cleanup (e ∷ es, h) = (err cleanup_failed, h)

  -- The deferred unload of an image that was loaded
  abbrev pub unload :
      Result BootError (Unit {0}) × History → Result (BootError × List Event) (Unit {0}) × History
  unload (ok u, h) = (ok u, h)
  unload (err e, h) = joined e (attempt (kexec (codes "-u")) ([], h))

  unfoldable pub execute_kexec : Stage → Step (BootError × List Event) (Unit {0})
  execute_kexec stage h =
      if (system.reply h (load stage)).success
      then unload (after_cleanup (cleanup_stage stage false false (run (load stage) ∷ h)))
      else (err (load_failed, []), run (load stage) ∷ h)

  unfoldable pub validate_grub_configuration : Bytes → Step BootError (Unit {0})
  validate_grub_configuration path h = (check_configuration (system.read h path), h)

  unfoldable pub validate_grub_storage : Bytes → Step BootError (Unit {0})
  validate_grub_storage path = do
    filesystem ← run_command system (probe (codes "--target=fs") path) probe_failed
    pure_step (reject_if (not (bytes_eq (trim_space filesystem) (codes "ext2"))) wrong_filesystem)
    abstraction ← run_command system (probe (codes "--target=abstraction") path) probe_failed
    pure_step (reject_if (not (is_empty (trim_space abstraction))) wrong_abstraction)

  unfoldable pub verify_grub_next_entry : Bytes → Step BootError (Unit {0})
  verify_grub_next_entry path = do
    output ← run_command system (list_environment path) list_failed
    pure_step (reject_if (not (any_of is_armed_line (split 10 output))) not_armed)

  -- Up to the arming
  unfoldable pub check_grub : Stage → Step BootError (Unit {0})
  check_grub stage = do
    output ← run_command system update_grub update_failed
    validate_grub_configuration stage.grub_config_path
    validate_grub_storage stage.grub_env_path

  -- From the arming on
  unfoldable pub arm_and_reboot : Stage → Step BootError (Unit {0})
  arm_and_reboot stage = do
    output ← run_command system arm arm_failed
    verify_grub_next_entry stage.grub_env_path
    boot_by (systemctl (codes "reboot")) reboot reboot_failed

  -- The deferred clean-up, which knows whether the arming was attempted
  abbrev pub clean :
      Stage
      → Bool
      → Result BootError (Unit {0}) × History
      → Result (BootError × List Event) (Unit {0}) × History
  clean stage armed (ok u, h) = (ok u, h)
  clean stage armed (err e, h) = joined e (cleanup_stage stage armed true h)

  abbrev pub then_arm :
      Stage
      → Result BootError (Unit {0}) × History
      → Result (BootError × List Event) (Unit {0}) × History
  then_arm stage (ok u, h) = clean stage true (arm_and_reboot stage h)
  then_arm stage (err e, h) = clean stage false (err e, h)

  unfoldable pub execute_grub : Stage → Step (BootError × List Event) (Unit {0})
  execute_grub stage h = then_arm stage (check_grub stage h)
