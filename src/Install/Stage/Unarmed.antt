-- ===== src/Install/Stage/Unarmed.antt =====
-- On internal/install/stage.go, StageAndBoot: the boot entry of GRUB behind a failure.
use mikrotik_chr_script.Common.{
  ℕ, ◌≡◌, refl, sym, subst, ◌∙◌, false, ◌&&◌, List, ◌∷◌, Bool-cases, inl, inr,
}
use mikrotik_chr_script.Common.Bytes.{Bytes}
use mikrotik_chr_script.Common.Outcome.{Result, ok, err, wrap_err}
use mikrotik_chr_script.Network.Address.{Parsers}
use mikrotik_chr_script.Disk.Staging.{
  InstallMethod, no_method, rescue_direct, staged_kexec, staged_grub, TargetDisk,
}
use mikrotik_chr_script.Install.Manifest.{Manifest}
use mikrotik_chr_script.Install.Calls.{Event, run, History, System, Step, bind_step, wrap_step}
use mikrotik_chr_script.Install.Boot.{Stage, BootError, cleanup_stage, execute_kexec, execute_grub}
use mikrotik_chr_script.Install.Boot.Grub.{is_armed, execute_grub-not-is_armed}
use mikrotik_chr_script.Install.Stage.{
  StageError, grub_env_path, prepare_stage, stage_and_boot, boot_grub, sync_stage, sync, by_method,
  with_method, after_kexec, fall_back, is_none_left, as_boot, unsupported, not_staged,
}
use mikrotik_chr_script.Install.Stage.Prepared.{
  Fits, Holds, cleanup_stage-Keeps, execute_kexec-Keeps, prepare_stage-Keeps, prepare_stage-Fits,
}

-- Where a result is an error, the entry is not armed.
abbrev FailsUnarmed : {E A : Type 0} → Result E A × History → Type 0
FailsUnarmed (ok a, h) = Unit {0}
FailsUnarmed (err e, h) = is_armed grub_env_path h ≡ false

bind_step-FailsUnarmed :
    {E A B : Type 0} (P : A → Type 0) (r : Result E A × History) (f : A → Step E B)
    → Holds P r.0
    → is_armed grub_env_path r.1 ≡ false
    → ((a : A) (h : History) → P a → is_armed grub_env_path h ≡ false → FailsUnarmed (f a h))
    → FailsUnarmed (bind_step r f)
bind_step-FailsUnarmed P (ok a, h) f holds unarmed rest = rest a h holds unarmed
bind_step-FailsUnarmed P (err e, h) f holds unarmed rest = unarmed

wrap_err-Holds :
    {E F A : Type 0} (P : A → Type 0) (f : E → F) (r : Result E A)
    → Holds P r
    → Holds P (wrap_err f r)
wrap_err-Holds P f (ok a) holds = holds
wrap_err-Holds P f (err e) holds = tt

any_unit : {E : Type 0} (r : Result E (Unit {0})) → Holds (λ u. Unit {0}) r
any_unit (ok u) = tt
any_unit (err e) = tt

module _ (system : System) where
  as_boot-FailsUnarmed :
      (r : Result (BootError × List Event) (Unit {0}) × History)
      → ((e : BootError × List Event) (h : History)
          → r ≡ (err e, h)
          → is_armed grub_env_path h ≡ false)
      → FailsUnarmed (wrap_err as_boot r.0, r.1)
  as_boot-FailsUnarmed (ok u, h) unarmed = tt
  as_boot-FailsUnarmed (err e, h) unarmed = unarmed e h refl

  boot_grub-FailsUnarmed :
      (stage : Stage) (h : History)
      → stage.grub_env_path ≡ grub_env_path
      → is_armed grub_env_path h ≡ false
      → FailsUnarmed (boot_grub system stage h)
  boot_grub-FailsUnarmed stage h same unarmed =
      as_boot-FailsUnarmed (execute_grub system stage h) (λ e h1 eq.
        subst (λ p. is_armed p h1 ≡ false) same
          (execute_grub-not-is_armed system stage h h1 e (rw same refl)
            (subst (λ p. is_armed p h ≡ false) (sym same) unarmed) eq))

  sync_stage-FailsUnarmed :
      (stage : Stage) (h : History)
      → is_armed grub_env_path h ≡ false
      → is_armed grub_env_path (sync_stage system stage h).1 ≡ false
  sync_stage-FailsUnarmed stage h unarmed = elim (Bool-cases (system.reply h sync).success) [
    | inl synced ↦ rw synced unarmed
    | inr failed ↦
        rw failed (cleanup_stage-Keeps grub_env_path system stage (run sync ∷ h) ∙ unarmed)
  ]

  module _ (parsers : Parsers) (clock : ℕ) (encode : Manifest → Bytes) (disk : TargetDisk)
      (image executable : Bytes) (manifest : Manifest) (memory_bytes : ℕ) where
    again : Step (StageError × List Event) Stage
    again =
        prepare_stage system parsers clock encode (with_method staged_grub disk) image executable
          manifest memory_bytes

    fall_back-FailsUnarmed :
        (e : BootError × List Event) (s : List Event × History)
        → is_armed grub_env_path s.1 ≡ false
        → FailsUnarmed (fall_back system parsers clock encode disk again e s)
    unfolding again
    fall_back-FailsUnarmed (e, failed) (cleaned, h) unarmed =
        elim (Bool-cases (is_none_left cleaned && disk.grub)) [
          | inl tried ↦ rw tried (
              bind_step-FailsUnarmed (Fits (with_method staged_grub disk))
                (wrap_step (not_staged (e, failed)) again h) (boot_grub system)
                (wrap_err-Holds (Fits (with_method staged_grub disk)) (not_staged (e, failed))
                  (again h).0
                  ((prepare_stage-Fits system parsers clock encode _ image executable manifest
                      memory_bytes).held
                    h))
                ((prepare_stage-Keeps grub_env_path system parsers clock encode _ image executable
                      manifest memory_bytes).kept
                    h
                  ∙ unarmed)
                (λ stage h1 fits still.
                  boot_grub-FailsUnarmed stage h1 (fits.has_environment fits.same_method) still))
          | inr given_up ↦ rw given_up unarmed
        ]

    after_kexec-FailsUnarmed :
        (stage : Stage) (r : Result (BootError × List Event) (Unit {0}) × History)
        → is_armed grub_env_path r.1 ≡ false
        → FailsUnarmed (after_kexec system parsers clock encode disk stage again r)
    after_kexec-FailsUnarmed stage (ok u, h) unarmed = tt
    after_kexec-FailsUnarmed stage (err e, h) unarmed =
        fall_back-FailsUnarmed e (cleanup_stage system stage false false h)
          (cleanup_stage-Keeps grub_env_path system stage h ∙ unarmed)

    boot_stage-FailsUnarmed :
        (stage : Stage) (method : InstallMethod) (h : History)
        → stage.method ≡ method
        → Fits disk stage
        → is_armed grub_env_path h ≡ false
        → FailsUnarmed (
            by_method method
              (after_kexec system parsers clock encode disk stage again
                (execute_kexec system stage h))
              (boot_grub system stage h)
              (unsupported system parsers clock encode (cleanup_stage system stage false false h)))
    boot_stage-FailsUnarmed stage no_method h same fits unarmed =
        cleanup_stage-Keeps grub_env_path system stage h ∙ unarmed
    boot_stage-FailsUnarmed stage rescue_direct h same fits unarmed =
        cleanup_stage-Keeps grub_env_path system stage h ∙ unarmed
    boot_stage-FailsUnarmed stage staged_kexec h same fits unarmed =
        after_kexec-FailsUnarmed stage (execute_kexec system stage h)
          ((execute_kexec-Keeps grub_env_path system stage).kept h ∙ unarmed)
    boot_stage-FailsUnarmed stage staged_grub h same fits unarmed =
        boot_grub-FailsUnarmed stage h (fits.has_environment same) unarmed

    stage_and_boot-FailsUnarmed :
        (h : History)
        → is_armed grub_env_path h ≡ false
        → FailsUnarmed (
            stage_and_boot system parsers clock encode disk image executable manifest memory_bytes
              h)
    unfolding stage_and_boot again
    stage_and_boot-FailsUnarmed h unarmed =
        bind_step-FailsUnarmed (Fits disk)
          (prepare_stage system parsers clock encode disk image executable manifest memory_bytes h)
          _
          ((prepare_stage-Fits system parsers clock encode disk image executable manifest
              memory_bytes).held
            h)
          ((prepare_stage-Keeps grub_env_path system parsers clock encode disk image executable
                manifest memory_bytes).kept
              h
            ∙ unarmed)
          (λ stage h1 fits still.
            bind_step-FailsUnarmed (λ u. Unit {0}) (sync_stage system stage h1) _
              (any_unit (sync_stage system stage h1).0) (sync_stage-FailsUnarmed stage h1 still)
              (λ u h2 t unarmed2. boot_stage-FailsUnarmed stage stage.method h2 refl fits unarmed2))

    -- From a history in which the boot entry of GRUB is not armed: where `stage_and_boot` ends in an
    -- error, the entry is not left armed, whichever of its calls failed, those of a fallback from kexec
    -- to GRUB included: behind every call that arms the entry comes one that clears it.
    pub stage_and_boot-not-is_armed :
        (h h' : History) (e : StageError × List Event)
        → is_armed grub_env_path h ≡ false
        → stage_and_boot system parsers clock encode disk image executable manifest memory_bytes h
          ≡ (err e, h')
        → is_armed grub_env_path h' ≡ false
    stage_and_boot-not-is_armed h h' e unarmed eq =
        subst FailsUnarmed eq (stage_and_boot-FailsUnarmed h unarmed)
