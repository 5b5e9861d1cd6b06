-- ===== src/Install/Stage/Prepared.antt =====
-- On internal/install/stage.go: PrepareStage and executeKexec leave the boot entry of GRUB as it is, and
-- the stage that PrepareStage returns.
use mikrotik_chr_script.Common.{
  ℕ, ◌+◌, ◌≡◌, refl, ◌∙◌, true, false, List, [], ◌∷◌, Bool-cases, inl, inr, arith,
}
use mikrotik_chr_script.Common.Bytes.{Bytes}
use mikrotik_chr_script.Common.Outcome.{Result, ok, err}
use mikrotik_chr_script.Network.Address.{Parsers}
use mikrotik_chr_script.Disk.Staging.{
  InstallMethod, no_method, rescue_direct, staged_kexec, staged_grub, TargetDisk,
}
use mikrotik_chr_script.Install.Manifest.{Manifest}
use mikrotik_chr_script.Install.Cmdline.{writer_cmdline}
use mikrotik_chr_script.Install.Calls.{
  Event, run, make_dir, make_file, History, System, Step, bind_step, ◌>>=◌, perform, pure_step,
}
use mikrotik_chr_script.Install.Boot.{
  Stage, BootError, load, cleanup_stage, execute_kexec, after_cleanup, unload,
}
use mikrotik_chr_script.Install.Boot.Grub.{is_armed, removals-is_armed}
use mikrotik_chr_script.Install.Stage.{
  StageError, not_made, no_image, no_initrd, no_built, build, build_path, kexec_stage_dir,
  grub_stage_dir, grub_script_path, grub_env_path, partly, check_memory, check_space, need_size,
  grub_script, build_for, build_stage, build_required, copy_stage, finish_grub, prepare_stage,
  check_disk, remove_step, by_method, kexec_stage, grub_stage, boot_space_spare,
}
use mikrotik_chr_script.Install.Resources.{u64}
use mikrotik_chr_script.Install.Stage.Quiet.{
  Keeps, >>=-Keeps, silent, partly-Keeps, perform-Keeps, wrap_step-Keeps, build_initramfs-Keeps,
}

module _ (path : Bytes) (system : System) where
  grub_script-Keeps : (stage : Stage) → Keeps path (grub_script system stage)
  unfolding grub_script
  grub_script-Keeps stage = silent path (λ h. ground arith)

  check_disk-Keeps : (disk : TargetDisk) → Keeps path (check_disk system disk)
  unfolding check_disk
  check_disk-Keeps disk = silent path (λ h. ground arith)

  check_memory-Keeps :
      (file : Bytes) (memory_bytes image_size : ℕ)
      → Keeps path (check_memory system file memory_bytes image_size)
  check_memory-Keeps file memory_bytes image_size = silent path (λ h. ground arith)

  -- A clean-up that does not clear the entry, of a stage with any environment block
  pub cleanup_stage-Keeps :
      (stage : Stage) (h : History)
      → is_armed path (cleanup_stage system stage false false h).1 ≡ is_armed path h
  unfolding cleanup_stage
  cleanup_stage-Keeps stage h = removals-is_armed system stage path ([], h)

  unload-is_armed :
      (r : Result BootError (Unit {0}) × History)
      → is_armed path (unload system r).1 ≡ is_armed path r.1
  unload-is_armed (ok u, h) = refl
  unload-is_armed (err e, h) = refl

  after_cleanup-is_armed :
      (s : List Event × History) → is_armed path (after_cleanup system s).1 ≡ is_armed path s.1
  after_cleanup-is_armed ([], h) = ground arith
  after_cleanup-is_armed (e ∷ es, h) = refl

  pub execute_kexec-Keeps : (stage : Stage) → Keeps path (execute_kexec system stage)
  unfolding execute_kexec
  execute_kexec-Keeps stage = silent path (λ h.
      let s = cleanup_stage system stage false false (run (load stage) ∷ h) in
      elim (Bool-cases (system.reply h (load stage)).success) [
        | inl loaded ↦ rw loaded (
            unload-is_armed (after_cleanup system s)
            ∙ after_cleanup-is_armed s
            ∙ cleanup_stage-Keeps stage (run (load stage) ∷ h))
        | inr refused ↦ rw refused refl
      ])

  module _ (parsers : Parsers) (clock : ℕ) (encode : Manifest → Bytes) where
    build_stage-Keeps :
        (disk : TargetDisk) (image executable : Bytes) (manifest : Manifest) (memory_bytes : ℕ)
        → Keeps path
            (build_stage system parsers clock encode disk image executable manifest memory_bytes)
    unfolding build_stage
    build_stage-Keeps disk image executable manifest memory_bytes =
        >>=-Keeps path (remove_step system true build_path) (silent path (λ h. refl)) (λ u1.
          >>=-Keeps path (need_size system image no_image) (silent path (λ h. refl)) (λ m.
            >>=-Keeps path (need_size system disk.initrd_path no_initrd) (silent path (λ h. refl))
              (λ n.
                >>=-Keeps path (pure_step (build_required m n)) (silent path (λ h. refl))
                  (λ required.
                    >>=-Keeps path (check_space system kexec_stage_dir required)
                      (silent path (λ h. refl))
                      (λ u2.
                        >>=-Keeps path
                          (build_for system parsers clock encode disk executable image manifest)
                          (wrap_step-Keeps path build (
                            build_initramfs-Keeps path system parsers clock encode _ _ _ _ _ _
                              manifest))
                          (λ u3.
                            check_memory-Keeps build_path memory_bytes manifest.image_size))))))

    copy_stage-Keeps : (stage : Stage) → Keeps path (copy_stage system parsers clock encode stage)
    unfolding copy_stage
    copy_stage-Keeps stage =
        >>=-Keeps path (need_size system build_path no_built) (silent path (λ h. refl)) (λ n.
          >>=-Keeps path (check_space system grub_stage_dir (u64 (n + boot_space_spare)))
            (silent path (λ h. refl))
            (λ u1.
              perform-Keeps path system _ not_made (λ h. refl)
                (>>=-Keeps path (remove_step system false build_path) (silent path (λ h. refl))
                  (λ u2. grub_script-Keeps stage))))

    finish_grub-Keeps :
        (disk : TargetDisk) (cmdline : Bytes)
        → Keeps path (finish_grub system parsers clock encode disk cmdline)
    finish_grub-Keeps disk cmdline =
        >>=-Keeps path (partly system _ _ (perform system (make_dir grub_stage_dir) not_made))
          (partly-Keeps path system _ _ (silent path (λ h. refl)))
          (λ u1.
            >>=-Keeps path
              (partly system _ _ (copy_stage system parsers clock encode (grub_stage disk cmdline)))
              (partly-Keeps path system _ _ (copy_stage-Keeps (grub_stage disk cmdline)))
              (λ script.
                >>=-Keeps path
                  (partly system _ _ (perform system (make_file grub_script_path script) not_made))
                  (partly-Keeps path system _ _ (silent path (λ h. refl)))
                  (λ u2. silent path (λ h. refl))))

    by_method-Keeps :
        {E A : Type 0} (method : InstallMethod) {kexec grub other : Step E A}
        → Keeps path kexec
        → Keeps path grub
        → Keeps path other
        → Keeps path (by_method method kexec grub other)
    by_method-Keeps no_method k g o = o
    by_method-Keeps rescue_direct k g o = o
    by_method-Keeps staged_kexec k g o = k
    by_method-Keeps staged_grub k g o = g

    pub prepare_stage-Keeps :
        (disk : TargetDisk) (image executable : Bytes) (manifest : Manifest) (memory_bytes : ℕ)
        → Keeps path
            (prepare_stage system parsers clock encode disk image executable manifest memory_bytes)
    unfolding prepare_stage
    prepare_stage-Keeps disk image executable manifest memory_bytes =
        >>=-Keeps path (partly system [] [] (check_disk system disk))
          (partly-Keeps path system [] [] (check_disk-Keeps disk))
          (λ cmdline.
            >>=-Keeps path
              (partly system [] [] (perform system (make_dir kexec_stage_dir) not_made))
              (partly-Keeps path system _ _ (silent path (λ h. refl)))
              (λ u1.
                >>=-Keeps path
                  (partly system _ _ (
                    build_stage system parsers clock encode disk image executable manifest
                      memory_bytes))
                  (partly-Keeps path system _ _
                    (build_stage-Keeps disk image executable manifest memory_bytes))
                  (λ u2.
                    by_method-Keeps disk.method (silent path (λ h. refl))
                      (finish_grub-Keeps disk (writer_cmdline cmdline))
                      (finish_grub-Keeps disk (writer_cmdline cmdline)))))

-- The stage that belongs to a disk: its method is the disk's, and a stage of GRUB has the environment
-- block of GRUB.
pub record Fits (disk : TargetDisk) (stage : Stage) : Type 0 where
  pub same_method : stage.method ≡ disk.method
  pub has_environment : stage.method ≡ staged_grub → stage.grub_env_path ≡ grub_env_path

abbrev pub Holds : {E A : Type 0} → (A → Type 0) → Result E A → Type 0
Holds P (ok a) = P a
Holds P (err e) = Unit {0}

bind_step-Holds :
    {E A B : Type 0} (P : B → Type 0) (r : Result E A × History) (f : A → Step E B)
    → ((a : A) (h : History) → Holds P (f a h).0)
    → Holds P (bind_step r f).0
bind_step-Holds P (ok a, h) f holds = holds a h
bind_step-Holds P (err e, h) f holds = tt

-- A step whose value, where there is one, has a property
pub record Yields {E A : Type 0} (P : A → Type 0) (m : Step E A) : Type 0 where
  pub held : (h : History) → Holds P (m h).0

>>=-Yields :
    {E A B : Type 0} {P : B → Type 0} (m : Step E A) {f : A → Step E B}
    → ((a : A) → Yields P (f a))
    → Yields P (m >>= f)
>>=-Yields {P} m {f} rest = record {
  held = λ h. bind_step-Holds P (m h) f (λ a h1. (rest a).held h1);
}

module _ (system : System) (parsers : Parsers) (clock : ℕ) (encode : Manifest → Bytes) where
  finish_grub-Fits :
      (disk : TargetDisk) (cmdline : Bytes)
      → Yields (Fits disk) (finish_grub system parsers clock encode disk cmdline)
  finish_grub-Fits disk cmdline =
      >>=-Yields (partly system _ _ (perform system (make_dir grub_stage_dir) not_made)) (λ u1.
        >>=-Yields
          (partly system _ _ (copy_stage system parsers clock encode (grub_stage disk cmdline)))
          (λ script.
            >>=-Yields
              (partly system _ _ (perform system (make_file grub_script_path script) not_made))
              (λ u2. record {
                held = λ h. record { same_method = refl; has_environment = λ same. refl };
              })))

  finish_stage-Fits :
      (disk : TargetDisk) (method : InstallMethod) (cmdline : Bytes)
      → disk.method ≡ method
      → Yields (Fits disk) (
          by_method method
            (pure_step {E = StageError × List Event} (ok (kexec_stage disk cmdline)))
            (finish_grub system parsers clock encode disk cmdline)
            (finish_grub system parsers clock encode disk cmdline))
  finish_stage-Fits disk no_method cmdline same = finish_grub-Fits disk cmdline
  finish_stage-Fits disk rescue_direct cmdline same = finish_grub-Fits disk cmdline
  finish_stage-Fits disk staged_kexec cmdline same = record {
    held = λ h. record { same_method = refl; has_environment = λ other. absurd cc };
  }
  finish_stage-Fits disk staged_grub cmdline same = finish_grub-Fits disk cmdline

  -- Behind `prepare_stage`, a stage has the method of the disk.
  pub prepare_stage-Fits :
      (disk : TargetDisk) (image executable : Bytes) (manifest : Manifest) (memory_bytes : ℕ)
      → Yields
          (Fits disk)
          (prepare_stage system parsers clock encode disk image executable manifest memory_bytes)
  unfolding prepare_stage
  prepare_stage-Fits disk image executable manifest memory_bytes =
      >>=-Yields (partly system [] [] (check_disk system disk)) (λ cmdline.
        >>=-Yields (partly system [] [] (perform system (make_dir kexec_stage_dir) not_made)) (λ u1.
          >>=-Yields
            (partly system (build_path ∷ []) (kexec_stage_dir ∷ [])
              (build_stage system parsers clock encode disk image executable manifest memory_bytes))
            (λ u2. finish_stage-Fits disk disk.method (writer_cmdline cmdline) refl)))
