-- ===== src/Install/BootTests.antt =====
-- A concrete system on which the theorems on the staged boot of internal/install are applied.
use mikrotik_chr_script.Common.{
  ◌≡◌, ◌⊎◌, refl, true, false, List, [], ◌∷◌, ◌++◌, none, some, if◌then◌else◌,
}
use mikrotik_chr_script.Common.Bytes.{Bytes}
use mikrotik_chr_script.Common.Text.{codes}
use mikrotik_chr_script.Common.Outcome.{Result, ok, err}
use mikrotik_chr_script.Install.Calls.{
  Event, run, gone, History, System, found, regular_file, absent, unread_path,
}
use mikrotik_chr_script.Disk.Staging.{staged_grub}
use mikrotik_chr_script.Install.Boot.{
  Stage, BootError, arm, list_environment, probe, systemctl, reboot, load, cleanup_stage,
  validate_grub_configuration, validate_grub_storage, verify_grub_next_entry, check_grub,
  arm_and_reboot, execute_grub, execute_kexec, required_lines, load_failed, arm_failed,
}
use mikrotik_chr_script.Install.Boot.Reboot.{BootedBy}
use mikrotik_chr_script.Install.Boot.Grub.{
  same_command, is_armed, IsChecked, IsArmed, probed, listed, execute_grub-ok,
  execute_grub-not-is_armed,
}
use mikrotik_chr_script.Install.Boot.Kexec.{EndsBooted, EndsUnloaded, execute_kexec-ends}

abbrev a_stage : Stage
a_stage = record {
  method = staged_grub;
  kernel_path = codes "/boot/vmlinuz-6";
  initrd_path = codes "/boot/chr-install/initrd.img";
  cmdline = codes "quiet chr.install=1";
  grub_script = codes "/etc/grub.d/42_chr_install";
  grub_config_path = codes "/boot/grub/grub.cfg";
  grub_env_path = codes "/boot/grub/grubenv";
  build_dir = codes "/var/lib/chr-install";
  stage_dir = codes "/boot/chr-install";
}

abbrev joined_lines : List Bytes → Bytes
joined_lines [] = []
joined_lines (l ∷ ls) = l ++ 10 ∷ joined_lines ls

abbrev an_output : List Bytes → Bytes
an_output argv =
    if same_command argv (list_environment a_stage.grub_env_path)
    then codes "next_entry=chr-install-writer"
    else if same_command argv (probe (codes "--target=fs") a_stage.grub_env_path)
    then codes "ext2"
    else []

-- Every call succeeds but those of one command.
abbrev a_system : List Bytes → System
a_system failing = record {
  reply = λ h argv. record {
    success = if same_command argv failing then false else true;
    output = an_output argv;
  };
  read = λ h path. some (joined_lines required_lines);
  removal = λ h path. gone;
  stat = λ h path. found regular_file 1;
  lstat = λ h path. absent;
  statfs = λ h path. none;
  tree = λ h path. unread_path;
  temporary = λ h path. none;
  performs = λ h event. true;
}

abbrev sound : System
sound = a_system []

grub_boots :
    execute_grub sound a_stage []
    ≡ (ok tt, run (systemctl (codes "reboot")) ∷ listed sound a_stage [])
unfolding execute_grub check_grub arm_and_reboot validate_grub_configuration validate_grub_storage
    verify_grub_next_entry
grub_boots = refl

grub-ok_example :
    IsChecked sound a_stage []
    × IsArmed sound a_stage (probed sound a_stage [])
    × BootedBy sound
        (systemctl (codes "reboot"))
        reboot
        (listed sound a_stage [])
        (run (systemctl (codes "reboot")) ∷ listed sound a_stage [])
grub-ok_example =
    execute_grub-ok sound a_stage [] (run (systemctl (codes "reboot")) ∷ listed sound a_stage []) tt
      grub_boots

-- The arming fails, and the clean-up clears the entry.
abbrev unarmed_history : History
unarmed_history = (execute_grub (a_system arm) a_stage []).1

arming_fails : execute_grub (a_system arm) a_stage [] ≡ (err (arm_failed, []), unarmed_history)
unfolding execute_grub check_grub arm_and_reboot validate_grub_configuration validate_grub_storage
    verify_grub_next_entry cleanup_stage
arming_fails = refl

grub-not-is_armed_example : is_armed a_stage.grub_env_path unarmed_history ≡ false
grub-not-is_armed_example =
    execute_grub-not-is_armed (a_system arm) a_stage [] unarmed_history (arm_failed, []) refl refl
      arming_fails

abbrev kexec_result : Result (BootError × List Event) (Unit {0}) × History
kexec_result = execute_kexec sound a_stage []

abbrev kexec_cleaned : List Event × History
kexec_cleaned = cleanup_stage sound a_stage false false (run (load a_stage) ∷ [])

kexec-ends_example :
    (((sound.reply [] (load a_stage)).success ≡ true)
      × (EndsBooted sound a_stage kexec_cleaned kexec_result.0 kexec_result.1
          ⊎ EndsUnloaded sound a_stage kexec_cleaned kexec_result.0 kexec_result.1))
    ⊎ (((sound.reply [] (load a_stage)).success ≡ false)
        × (kexec_result.0 ≡ err (load_failed, []))
        × (kexec_result.1 ≡ run (load a_stage) ∷ []))
kexec-ends_example = execute_kexec-ends sound a_stage [] kexec_result.1 kexec_result.0 refl
