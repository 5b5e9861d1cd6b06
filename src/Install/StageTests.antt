-- ===== src/Install/StageTests.antt =====
-- A concrete system on which the theorems on internal/install/stage.go, StageAndBoot, and on
-- internal/install/initramfs.go, shellQuote, are applied.
use mikrotik_chr_script.Common.{
  ◌≡◌, refl, Bool, true, false, not, ◌||◌, List, [], ◌∷◌, some, if◌then◌else◌,
}
use mikrotik_chr_script.Common.Bytes.{Bytes, bytes_eq}
use mikrotik_chr_script.Common.Text.{codes}
use mikrotik_chr_script.Common.Outcome.{err}
use mikrotik_chr_script.Disk.Staging.{staged_kexec, staged_grub, TargetDisk}
use mikrotik_chr_script.Install.Cmdline.{writer_cmdline, join_words}
use mikrotik_chr_script.Install.Manifest.{
  Manifest, validate_manifest, validate_timestamp, timestamp_within_window,
}
use mikrotik_chr_script.Disk.Hex.{hex_decode}
use mikrotik_chr_script.Network.Validate.{validate, each_ok}
use mikrotik_chr_script.Install.Resources.{
  ensure_filesystem_space, validate_initramfs_memory, parse_initramfs_listing, sum_listing,
  parse_digits,
}
use mikrotik_chr_script.Install.Calls.{
  run, gone, History, System, found, regular_file, directory_file, absent, plain_file, folder,
  entry, no_entries,
}
use mikrotik_chr_script.Install.Initramfs.{
  shell_quote, hook_script, copy_tree, write_manifest, fill_configuration, check_inputs,
  build_initramfs, lines_of,
}
use mikrotik_chr_script.Install.Initramfs.Quoting.{unquoted, shell_word, shell_word-shell_quote}
use mikrotik_chr_script.Install.Boot.{
  arm, list_environment, probe, cleanup_stage, validate_grub_configuration, validate_grub_storage,
  verify_grub_next_entry, check_grub, arm_and_reboot, execute_grub, execute_kexec, required_lines,
  arm_failed,
}
use mikrotik_chr_script.Install.Boot.Grub.{same_command, is_armed}
use mikrotik_chr_script.Install.Stage.{
  with_method, probe_failed, boot, grub_env_path, build_path, grub_relative_path, grub_script_text,
  build_required, cleanup_partial_stage, grub_script, check_disk, build_stage, copy_stage,
  prepare_stage, stage_and_boot, list_initramfs, fs_uuid_probe, find_mount,
}
use mikrotik_chr_script.Install.Stage.Removed.{IsRemoved, prepare_stage-IsRemoved}
use mikrotik_chr_script.Install.Stage.Unarmed.{stage_and_boot-not-is_armed}
use mikrotik_chr_script.Install.WriterTests.{six_parsers, a_manifest}

quote_example :
    shell_word unquoted (shell_quote (codes "/tmp/it's $HOME")) ≡ some (codes "/tmp/it's $HOME")
quote_example = shell_word-shell_quote (codes "/tmp/it's $HOME")

abbrev a_disk : TargetDisk
a_disk = record {
  fingerprint = a_manifest.disk;
  root_backed = true;
  mounted = true;
  method = staged_kexec;
  kernel_path = codes "/boot/vmlinuz-6";
  initrd_path = codes "/boot/initrd.img-6";
  kexec = true;
  grub = true;
}

abbrev an_output : List Bytes → Bytes
an_output argv =
    if same_command argv (list_environment grub_env_path)
    then codes "next_entry=chr-install-writer"
    else if same_command argv (probe (codes "--target=fs") grub_env_path)
    then codes "ext2"
    else if same_command argv (list_initramfs build_path)
    then codes "-rw------- 1 root root 2000 Jan 1 chr.img"
    else if same_command argv (fs_uuid_probe a_disk.kernel_path)
    then codes "abcd-1234"
    else if same_command argv (find_mount a_disk.kernel_path)
    then codes "/boot"
    else []

abbrev is_kexec : List Bytes → Bool
is_kexec [] = false
is_kexec (program ∷ arguments) = bytes_eq program (codes "kexec")

-- mkinitramfs was the last command.
abbrev is_built : History → Bool
is_built [] = false
is_built (run [] ∷ h) = false
is_built (run (program ∷ arguments) ∷ h) = bytes_eq program (codes "mkinitramfs")
is_built (e ∷ h) = false

-- Neither kexec nor the command `failing` succeeds.
abbrev a_system : List Bytes → System
a_system failing = record {
  reply = λ h argv. record {
    success = not (is_kexec argv || same_command argv failing);
    output = an_output argv;
  };
  read = λ h path. some (
      if bytes_eq path (codes "/proc/cmdline")
      then codes "quiet splash"
      else lines_of required_lines);
  removal = λ h path. gone;
  stat = λ h path.
      if bytes_eq path (codes "/lib/modules/6")
      then found directory_file 4096
      else found regular_file 1000;
  lstat = λ h path. if is_built h then found regular_file 1000 else absent;
  statfs = λ h path. some (record { available_blocks = 1000000; block_size = 4096 });
  tree = λ h path. folder (entry (codes "modules") plain_file no_entries);
  temporary = λ h path. some (codes "/var/lib/chr-install/.chr-install-initramfs-1");
  performs = λ h event. true;
}

abbrev no_text : Manifest → Bytes
no_text m = []

-- kexec fails, and so does the arming behind it.
abbrev failed_history : History
failed_history =
    (stage_and_boot (a_system arm) six_parsers 1003700 no_text a_disk (codes "/tmp/chr.img")
      (codes "/usr/bin/chr-install") a_manifest 8589934592 []).1

both_fail :
    stage_and_boot
      (a_system arm)
      six_parsers
      1003700
      no_text
      a_disk
      (codes "/tmp/chr.img")
      (codes "/usr/bin/chr-install")
      a_manifest
      8589934592
      []
    ≡ (err (boot arm_failed, []), failed_history)
unfolding stage_and_boot prepare_stage check_disk build_stage copy_stage grub_script build_required
    cleanup_partial_stage grub_relative_path grub_script_text build_initramfs check_inputs
    fill_configuration write_manifest copy_tree hook_script shell_quote validate_manifest validate
    each_ok validate_timestamp timestamp_within_window hex_decode ensure_filesystem_space
    validate_initramfs_memory parse_initramfs_listing sum_listing parse_digits writer_cmdline
    join_words execute_kexec execute_grub check_grub arm_and_reboot validate_grub_configuration
    validate_grub_storage verify_grub_next_entry cleanup_stage
both_fail = refl

stage-not-is_armed_example : is_armed grub_env_path failed_history ≡ false
stage-not-is_armed_example =
    stage_and_boot-not-is_armed (a_system arm) six_parsers 1003700 no_text a_disk
      (codes "/tmp/chr.img") (codes "/usr/bin/chr-install") a_manifest 8589934592 [] failed_history
      (boot arm_failed, []) refl both_fail

-- The build succeeds, and the probe of the file system behind it does not.
abbrev unprobed : System
unprobed = a_system (fs_uuid_probe a_disk.kernel_path)

abbrev unprobed_history : History
unprobed_history =
    (prepare_stage unprobed six_parsers 1003700 no_text (with_method staged_grub a_disk)
      (codes "/tmp/chr.img") (codes "/usr/bin/chr-install") a_manifest 8589934592 []).1

probe_fails :
    prepare_stage unprobed six_parsers 1003700 no_text
      (with_method staged_grub a_disk)
      (codes "/tmp/chr.img")
      (codes "/usr/bin/chr-install")
      a_manifest
      8589934592
      []
    ≡ (err (probe_failed, []), unprobed_history)
unfolding prepare_stage check_disk build_stage copy_stage grub_script build_required
    cleanup_partial_stage grub_relative_path grub_script_text build_initramfs check_inputs
    fill_configuration write_manifest copy_tree hook_script shell_quote validate_manifest validate
    each_ok validate_timestamp timestamp_within_window hex_decode ensure_filesystem_space
    validate_initramfs_memory parse_initramfs_listing sum_listing parse_digits writer_cmdline
    join_words
probe_fails = refl

stage-IsRemoved_example : IsRemoved unprobed [] unprobed_history
stage-IsRemoved_example =
    prepare_stage-IsRemoved unprobed six_parsers 1003700 no_text (with_method staged_grub a_disk)
      (codes "/tmp/chr.img") (codes "/usr/bin/chr-install") a_manifest 8589934592 []
      unprobed_history probe_failed [] refl probe_fails
