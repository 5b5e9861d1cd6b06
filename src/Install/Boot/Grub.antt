-- ===== src/Install/Boot/Grub.antt =====
-- On internal/install/stage.go: the calls of executeGRUB, and the boot entry behind them.
use mikrotik_chr_script.Common.{
  ◌≡◌, ◌⊎◌, subst, inl, inr, refl, ◌∙◌, Bool, true, false, not, ◌&&◌, ◌||◌, if◌then◌else◌, List, [],
  ◌∷◌, Option, none, some, any_of, arith, Bool-cases,
}
use mikrotik_chr_script.Common.Bytes.{Bytes, bytes_eq, bytes_eq_self}
use mikrotik_chr_script.Common.Text.{codes, trim_space, is_empty, split}
use mikrotik_chr_script.Common.Outcome.{Result, ok, err, Result-cases, reject_if-eq-ok}
use mikrotik_chr_script.Install.Calls.{
  Event, run, remove, remove_tree, make_dir, make_file, copy_file, make_link, History, System,
}
use mikrotik_chr_script.Install.Boot.Reboot.{BootedBy}
use mikrotik_chr_script.Install.Boot.{
  Stage, BootError, update_grub, arm, unset, list_environment, probe, systemctl, reboot,
  cleanup_stage, validate_grub_configuration, validate_grub_storage, verify_grub_next_entry,
  check_grub, arm_and_reboot, clean, then_arm, execute_grub, remove_file, remove_directory, attempt,
  is_complete, is_armed_line, check_configuration, incomplete_config,
}

abbrev pub same_command : List Bytes → List Bytes → Bool
same_command [] [] = true
same_command [] (y ∷ ys) = false
same_command (x ∷ xs) [] = false
same_command (x ∷ xs) (y ∷ ys) = bytes_eq x y && same_command xs ys

-- Whether the last call that arms or clears the entry is one that arms it.
abbrev pub is_armed : Bytes → History → Bool
is_armed path [] = false
is_armed path (run argv ∷ h) =
    let before = is_armed path h in
    if same_command argv arm then true else if same_command argv (unset path) then false else before
is_armed path (remove p ∷ h) = is_armed path h
is_armed path (make_dir p ∷ h) = is_armed path h
is_armed path (remove_tree p ∷ h) = is_armed path h
is_armed path (make_file p text ∷ h) = is_armed path h
is_armed path (copy_file p q ∷ h) = is_armed path h
is_armed path (make_link p q ∷ h) = is_armed path h

module _ (system : System) (stage : Stage) where
  remove_file-is_armed :
      (path p : Bytes) (s : List Event × History)
      → is_armed path (remove_file system p s).1 ≡ is_armed path s.1
  remove_file-is_armed path p s = elim (Bool-cases (is_empty p)) [
    | inl skipped ↦ rw skipped refl
    | inr removed ↦ rw removed refl
  ]

  remove_directory-is_armed :
      (path p : Bytes) (s : List Event × History)
      → is_armed path (remove_directory system p s).1 ≡ is_armed path s.1
  remove_directory-is_armed path p s = elim (Bool-cases (bytes_eq p (codes ".") || is_empty p)) [
    | inl skipped ↦ rw skipped refl
    | inr removed ↦ rw removed refl
  ]

  same_command_self : (argv : List Bytes) → same_command argv argv ≡ true
  same_command_self [] = refl
  same_command_self (x ∷ xs) = rw (bytes_eq_self x) (same_command_self xs)

  pub removals-is_armed :
      (path : Bytes) (s : List Event × History)
      → is_armed path
          (remove_directory system stage.build_dir (
            remove_directory system stage.stage_dir
              (remove_file system stage.initrd_path (remove_file system stage.grub_script s)))).1
        ≡ is_armed path s.1
  removals-is_armed path s =
      let s1 = remove_file system stage.grub_script s in
      let s2 = remove_file system stage.initrd_path s1 in
      let s3 = remove_directory system stage.stage_dir s2 in
      remove_directory-is_armed path stage.build_dir s3
      ∙ remove_directory-is_armed path stage.stage_dir s2
      ∙ remove_file-is_armed path stage.initrd_path s1
      ∙ remove_file-is_armed path stage.grub_script s

  -- The first step of the clean-up, where the entry is to be cleared
  cleared : (h : History) → List Event × History
  cleared h =
      if not (is_empty stage.grub_env_path)
      then attempt system (unset stage.grub_env_path) ([], h)
      else ([], h)

  cleared-is_armed :
      (h : History)
      → is_empty stage.grub_env_path ≡ false
      → is_armed stage.grub_env_path (cleared h).1 ≡ false
  unfolding cleared
  cleared-is_armed h some_path = rw (some_path, bytes_eq_self stage.grub_env_path) refl

  -- A clean-up that clears the entry leaves it cleared; one that does not leaves it as it was.
  cleanup_stage-is_armed :
      (clear refresh : Bool) (h : History)
      → is_empty stage.grub_env_path ≡ false
      → is_armed stage.grub_env_path (cleanup_stage system stage clear refresh h).1
        ≡ (not clear && is_armed stage.grub_env_path h)
  unfolding cleanup_stage cleared
  cleanup_stage-is_armed true true h some_path =
      removals-is_armed stage.grub_env_path (cleared h) ∙ cleared-is_armed h some_path
  cleanup_stage-is_armed true false h some_path =
      removals-is_armed stage.grub_env_path (cleared h) ∙ cleared-is_armed h some_path
  cleanup_stage-is_armed false true h some_path = removals-is_armed stage.grub_env_path ([], h)
  cleanup_stage-is_armed false false h some_path = removals-is_armed stage.grub_env_path ([], h)

  check_grub-is_armed :
      (h : History)
      → is_armed stage.grub_env_path (check_grub system stage h).1 ≡ is_armed stage.grub_env_path h
  unfolding check_grub validate_grub_configuration validate_grub_storage
  check_grub-is_armed h = ground arith

  clean-is_armed :
      (armed : Bool) (r : Result BootError (Unit {0})) (h : History) {e : BootError × List Event}
      {h' : History}
      → is_empty stage.grub_env_path ≡ false
      → (armed ≡ true) ⊎ (is_armed stage.grub_env_path h ≡ false)
      → clean system stage armed (r, h) ≡ (err e, h')
      → is_armed stage.grub_env_path h' ≡ false
  clean-is_armed armed (ok u) h some_path safe eq = absurd (ground arith)
  clean-is_armed armed (err f) h some_path safe eq =
      ground (arith, cleanup_stage-is_armed armed true h some_path)

  then_arm-is_armed :
      (r : Result BootError (Unit {0})) (h : History) {e : BootError × List Event} {h' : History}
      → is_empty stage.grub_env_path ≡ false
      → is_armed stage.grub_env_path h ≡ false
      → then_arm system stage (r, h) ≡ (err e, h')
      → is_armed stage.grub_env_path h' ≡ false
  then_arm-is_armed (ok u) h some_path unarmed eq =
      let s = arm_and_reboot system stage h in clean-is_armed true s.0 s.1 some_path (inl refl) eq
  then_arm-is_armed (err f) h some_path unarmed eq =
      clean-is_armed false (err f) h some_path (inr unarmed) eq

  -- For a stage with an environment block, from a history in which the boot entry is not armed: where
  -- `execute_grub` fails, the entry is not left armed: if the arming was attempted, a call
  -- that clears the entry came behind it.
  pub execute_grub-not-is_armed :
      (h h' : History) (e : BootError × List Event)
      → is_empty stage.grub_env_path ≡ false
      → is_armed stage.grub_env_path h ≡ false
      → execute_grub system stage h ≡ (err e, h')
      → is_armed stage.grub_env_path h' ≡ false
  unfolding execute_grub
  execute_grub-not-is_armed h h' e some_path unarmed eq =
      let s = check_grub system stage h in
      then_arm-is_armed s.0 s.1 some_path (check_grub-is_armed h ∙ unarmed) eq

  -- The histories behind the calls of a boot by GRUB
  abbrev pub updated : History → History
  updated h = run update_grub ∷ h

  abbrev pub fs_probe : List Bytes
  fs_probe = probe (codes "--target=fs") stage.grub_env_path

  abbrev pub abstraction_probe : List Bytes
  abstraction_probe = probe (codes "--target=abstraction") stage.grub_env_path

  abbrev pub probed : History → History
  probed h = run abstraction_probe ∷ run fs_probe ∷ updated h

  abbrev pub listed : History → History
  listed h = run (list_environment stage.grub_env_path) ∷ run arm ∷ probed h

  -- The checks in front of the reboot
  pub record IsChecked (h : History) : Type 0 where
    pub updated_ok : (system.reply h update_grub).success ≡ true
    pub probes_ok :
        ((system.reply (updated h) fs_probe).success ≡ true)
        × ((system.reply (run fs_probe ∷ updated h) abstraction_probe).success ≡ true)
    pub configuration : Bytes
    pub read_ok : system.read (updated h) stage.grub_config_path ≡ some configuration
    pub complete : is_complete configuration ≡ true
    pub ext2 :
        bytes_eq (trim_space (system.reply (updated h) fs_probe).output) (codes "ext2") ≡ true
    pub plain :
        is_empty (trim_space (system.reply (run fs_probe ∷ updated h) abstraction_probe).output)
        ≡ true

  check_configuration-ok :
      (o : Option Bytes) {u : Unit {0}}
      → check_configuration o ≡ ok u
      → (configuration : Bytes) × (o ≡ some configuration) × (is_complete configuration ≡ true)
  check_configuration-ok none eq = absurd cc
  check_configuration-ok (some configuration) eq = (
    configuration,
    refl,
    ground (arith, reject_if-eq-ok (not (is_complete configuration)) incomplete_config eq),
  )

  validate_grub_storage-ok :
      (h : History) {h' : History} {u : Unit {0}}
      → validate_grub_storage system stage.grub_env_path h ≡ (ok u, h')
      → ((system.reply h fs_probe).success ≡ true)
        × ((system.reply (run fs_probe ∷ h) abstraction_probe).success ≡ true)
        × (bytes_eq (trim_space (system.reply h fs_probe).output) (codes "ext2") ≡ true)
        × (is_empty (trim_space (system.reply (run fs_probe ∷ h) abstraction_probe).output) ≡ true)
        × (h' ≡ run abstraction_probe ∷ run fs_probe ∷ h)
  unfolding validate_grub_storage
  validate_grub_storage-ok h eq = ground arith

  check_grub-ok :
      (h : History) {h' : History} {u : Unit {0}}
      → check_grub system stage h ≡ (ok u, h')
      → IsChecked h × (h' ≡ probed h)
  unfolding check_grub validate_grub_configuration
  check_grub-ok h {h'} {u} eq =
      let config : Result BootError (Unit {0}) =
        check_configuration (system.read (updated h) stage.grub_config_path) in
      elim (Result-cases config) [
        | inl (v, passed) ↦
            let stored : validate_grub_storage system stage.grub_env_path (updated h) ≡ (ok u, h') =
              ground arith in
            let (configuration, read_ok, complete) = check_configuration-ok _ passed in
            let (fs_ok, abstraction_ok, ext2, plain, ends) =
              validate_grub_storage-ok (updated h) stored in
            (
              record {
                updated_ok = ground arith;
                probes_ok = (fs_ok, abstraction_ok);
                configuration = configuration;
                read_ok = read_ok;
                complete = complete;
                ext2 = ext2;
                plain = plain;
              },
              ends,
            )
        | inr (f, failed) ↦ absurd (ground arith)
      ]

  -- From the arming on: what succeeded, and what the list read back shows
  pub record IsArmed (h : History) : Type 0 where
    pub arm_ok : (system.reply h arm).success ≡ true
    pub list_ok : (system.reply (run arm ∷ h) (list_environment stage.grub_env_path)).success ≡ true
    pub shown :
        any_of is_armed_line
          (split 10 (system.reply (run arm ∷ h) (list_environment stage.grub_env_path)).output)
        ≡ true

  arm_and_reboot-ok :
      (h : History) {h' : History} {u : Unit {0}}
      → arm_and_reboot system stage h ≡ (ok u, h')
      → IsArmed h
        × BootedBy system
            (systemctl (codes "reboot"))
            reboot
            (run (list_environment stage.grub_env_path) ∷ run arm ∷ h)
            h'
  unfolding arm_and_reboot verify_grub_next_entry
  arm_and_reboot-ok h eq =
      (record { arm_ok = ground arith; list_ok = ground arith; shown = ground arith }, ground arith)

  clean-ok :
      (armed : Bool) (r : Result BootError (Unit {0})) (h : History) {h' : History} {u : Unit {0}}
      → clean system stage armed (r, h) ≡ (ok u, h')
      → ◌≡◌ {A = Result BootError (Unit {0}) × History} (r, h) (ok u, h')
  clean-ok armed (ok v) h eq = ground arith
  clean-ok armed (err f) h eq = absurd (ground arith)

  then_arm-ok :
      (r : Result BootError (Unit {0})) (h : History) {h' : History} {u : Unit {0}}
      → then_arm system stage (r, h) ≡ (ok u, h')
      → (r ≡ ok tt) × (arm_and_reboot system stage h ≡ (ok u, h'))
  then_arm-ok (ok v) h eq =
      let s = arm_and_reboot system stage h in (refl, clean-ok true s.0 s.1 eq)
  then_arm-ok (err f) h eq = absurd (ground arith)

  -- Where `execute_grub` succeeds, update-grub did, and every check in front of the reboot passed: the
  -- configuration has the one-shot handling, the environment block stands on a plain ext2, grub-reboot
  -- succeeded, and the list read back behind it shows the armed entry. The calls were these and no
  -- others, in this order, and the last one is a reboot that succeeded: by systemctl or, where that
  -- failed, directly.
  pub execute_grub-ok :
      (h h' : History) (u : Unit {0})
      → execute_grub system stage h ≡ (ok u, h')
      → IsChecked h
        × IsArmed (probed h)
        × BootedBy system (systemctl (codes "reboot")) reboot (listed h) h'
  unfolding execute_grub
  execute_grub-ok h h' u eq =
      let s = check_grub system stage h in
      let (passed, rebooted) = then_arm-ok s.0 s.1 eq in
      let checked : s ≡ (ok tt, s.1) = ground arith in
      let (checks, ends) = check_grub-ok h checked in
      let (armed, last) = arm_and_reboot-ok s.1 rebooted in
      (
        checks,
        subst IsArmed ends armed,
        subst
            (λ p.
              BootedBy system (systemctl (codes "reboot")) reboot
                (run (list_environment stage.grub_env_path) ∷ run arm ∷ p) h')
            ends last,
      )
