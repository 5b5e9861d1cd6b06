-- ===== src/Install/Stage/Removed.antt =====
-- On internal/install/stage.go, PrepareStage: the initramfs behind a failure.
use mikrotik_chr_script.Common.{
  ◌&&◌, ◌⊎◌, In, ◌++◌, ℕ, ◌≡◌, refl, subst, ◌∙◌, Bool, true, false, if◌then◌else◌, List, [], ◌∷◌,
  any_of, Bool-cases, inl, inr, arith,
}
use mikrotik_chr_script.Common.Bytes.{Bytes, bytes_eq}
use mikrotik_chr_script.Common.Outcome.{Result, ok, err}
use mikrotik_chr_script.Network.Address.{Parsers}
use mikrotik_chr_script.Disk.Staging.{
  InstallMethod, no_method, rescue_direct, staged_kexec, staged_grub, TargetDisk,
}
use mikrotik_chr_script.Install.Cmdline.{writer_cmdline}
use mikrotik_chr_script.Install.Manifest.{Manifest}
use mikrotik_chr_script.Install.Calls.{
  Event, run, remove, remove_tree, gone, missing, not_empty, refused, Removal, make_dir, make_file,
  copy_file, make_link, History, System, Step, bind_step, pure_step, perform,
}
use mikrotik_chr_script.Install.Boot.{attempt_removal, is_failure}
use mikrotik_chr_script.Install.Stage.{
  StageError, not_made, build_path, boot_initrd_path, grub_script_path, kexec_stage_dir,
  grub_stage_dir, remove_all, cleanup_partial_stage, or_clean, partly, check_disk, build_stage,
  copy_stage, finish_grub, prepare_stage, by_method, kexec_stage, grub_stage,
}

-- Whether `os.Remove` ends with no file at the path
abbrev pub is_removed : Removal → Bool
is_removed gone = true
is_removed missing = true
is_removed not_empty = false
is_removed refused = false

-- Whether a call that may make a file at a path, as any command that has the path as an argument may,
-- came behind the last one that removed it. A removal that the system refuses removes nothing.
abbrev pub is_left : System → Bytes → History → Bool
is_left system path [] = false
is_left system path (run argv ∷ h) =
    let before = is_left system path h in if any_of (bytes_eq path) argv then true else before
is_left system path (remove p ∷ h) =
    let before = is_left system path h in
    if bytes_eq p path && is_removed (system.removal h p) then false else before
is_left system path (remove_tree p ∷ h) = is_left system path h
is_left system path (make_dir p ∷ h) = is_left system path h
is_left system path (make_file p text ∷ h) =
    let before = is_left system path h in if bytes_eq p path then true else before
is_left system path (copy_file p q ∷ h) =
    let before = is_left system path h in if bytes_eq q path then true else before
is_left system path (make_link p q ∷ h) =
    let before = is_left system path h in if bytes_eq q path then true else before

-- The built initramfs is not left, or the errors of the clean-up name it.
abbrev pub IsRemoved : System → List Event → History → Type 0
IsRemoved system failed h = (is_left system build_path h ≡ false) ⊎ In (remove build_path) failed

-- The same, where a result is an error
abbrev FailsRemoved : {E A : Type 0} → (E → List Event) → System → Result E A × History → Type 0
FailsRemoved failed system (ok a, h) = Unit {0}
FailsRemoved failed system (err e, h) = IsRemoved system (failed e) h

abbrev cleaned : StageError × List Event → List Event
cleaned e = e.1

module _ (system : System) where
  then_FailsRemoved :
      {A B : Type 0} (r : Result (StageError × List Event) A × History)
      (f : A → Step (StageError × List Event) B)
      → FailsRemoved cleaned system r
      → ((a : A) (h : History) → FailsRemoved cleaned system (f a h))
      → FailsRemoved cleaned system (bind_step r f)
  then_FailsRemoved (ok a, h) f first rest = rest a h
  then_FailsRemoved (err e, h) f first rest = first

  unleft_FailsRemoved :
      {A B : Type 0} (r : Result (StageError × List Event) A × History)
      (f : A → Step (StageError × List Event) B)
      → is_left system build_path r.1 ≡ false
      → ((a : A) (h : History)
          → is_left system build_path h ≡ false
          → FailsRemoved cleaned system (f a h))
      → FailsRemoved cleaned system (bind_step r f)
  unleft_FailsRemoved (ok a, h) f unleft rest = rest a h unleft
  unleft_FailsRemoved (err e, h) f unleft rest = inl unleft

  In-append : (e : Event) (es fs : List Event) → In e es → In e (es ++ fs)
  In-append e [] fs absent = elim absent [ ]
  In-append e (x ∷ es) fs (inl same) = inl same
  In-append e (x ∷ es) fs (inr later) = inr (In-append e es fs later)

  attempt_removal-IsRemoved :
      (directory : Bool) (p : Bytes) (s : List Event × History)
      → IsRemoved system s.0 s.1
      → IsRemoved system
          (attempt_removal system directory p s).0
          (attempt_removal system directory p s).1
  attempt_removal-IsRemoved directory p (failed, h) (inl unleft) =
      inl (elim (Bool-cases (bytes_eq p build_path && is_removed (system.removal h p))) [
        | inl same ↦ rw same refl
        | inr other ↦ rw other unleft
      ])
  attempt_removal-IsRemoved directory p (failed, h) (inr told) =
      elim (Bool-cases (is_failure directory (system.removal h p))) [
        | inl fails ↦ rw fails (inr (In-append (remove build_path) failed (remove p ∷ []) told))
        | inr works ↦ rw works (inr told)
      ]

  remove_all-IsRemoved :
      (directories : Bool) (ps : List Bytes) (s : List Event × History)
      → IsRemoved system s.0 s.1
      → IsRemoved system
          (remove_all system directories ps s).0
          (remove_all system directories ps s).1
  remove_all-IsRemoved directories [] s removed = removed
  remove_all-IsRemoved directories (p ∷ ps) s removed =
      remove_all-IsRemoved directories ps (attempt_removal system directories p s)
        (attempt_removal-IsRemoved directories p s removed)

  -- The first removal of a clean-up removes the initramfs, or its failure is kept.
  first-IsRemoved :
      (h : History) (answer : Removal)
      → system.removal h build_path ≡ answer
      → IsRemoved system
          (attempt_removal system false build_path ([], h)).0
          (attempt_removal system false build_path ([], h)).1
  first-IsRemoved h gone same = inl (rw same refl)
  first-IsRemoved h missing same = inl (rw same refl)
  first-IsRemoved h not_empty same = rw same (inr (inl refl))
  first-IsRemoved h refused same = rw same (inr (inl refl))

  -- A phase whose clean-up removes the built initramfs first
  partly-FailsRemoved :
      {A : Type 0} (files directories : List Bytes) (r : Result StageError A × History)
      → FailsRemoved cleaned system (or_clean system (build_path ∷ files) directories r)
  unfolding cleanup_partial_stage
  partly-FailsRemoved files directories (ok a, h) = tt
  partly-FailsRemoved files directories (err e, h) = remove_all-IsRemoved true directories _ (
      remove_all-IsRemoved false files (attempt_removal system false build_path ([], h))
        (first-IsRemoved h (system.removal h build_path) refl))

  -- A phase with nothing to clean
  nothing-is_left :
      {A : Type 0} (r : Result StageError A × History)
      → is_left system build_path r.1 ≡ false
      → is_left system build_path (or_clean system [] [] r).1 ≡ false
  unfolding cleanup_partial_stage
  nothing-is_left (ok a, h) unleft = unleft
  nothing-is_left (err e, h) unleft = unleft

  check_disk-is_left :
      (disk : TargetDisk) (h : History)
      → is_left system build_path (check_disk system disk h).1 ≡ is_left system build_path h
  unfolding check_disk
  check_disk-is_left disk h = ground arith

  module _ (parsers : Parsers) (clock : ℕ) (encode : Manifest → Bytes) where
    finish_grub-FailsRemoved :
        (disk : TargetDisk) (cmdline : Bytes) (h : History)
        → FailsRemoved cleaned system (finish_grub system parsers clock encode disk cmdline h)
    finish_grub-FailsRemoved disk cmdline h =
        then_FailsRemoved
          (partly system (build_path ∷ []) (kexec_stage_dir ∷ [])
            (perform system (make_dir grub_stage_dir) not_made) h)
          _ (partly-FailsRemoved _ _ _)
          (λ u1 h1.
            then_FailsRemoved
              (partly system (build_path ∷ boot_initrd_path ∷ [])
                (grub_stage_dir ∷ kexec_stage_dir ∷ [])
                (copy_stage system parsers clock encode (grub_stage disk cmdline)) h1)
              _ (partly-FailsRemoved _ _ _)
              (λ script h2.
                then_FailsRemoved
                  (partly system (build_path ∷ boot_initrd_path ∷ grub_script_path ∷ [])
                    (grub_stage_dir ∷ kexec_stage_dir ∷ [])
                    (perform system (make_file grub_script_path script) not_made) h2)
                  _ (partly-FailsRemoved _ _ _) (λ u2 h3. tt)))

    finish_stage-FailsRemoved :
        (disk : TargetDisk) (method : InstallMethod) (cmdline : Bytes) (h : History)
        → FailsRemoved cleaned system (
            by_method method
              (pure_step {E = StageError × List Event} (ok (kexec_stage disk cmdline)))
              (finish_grub system parsers clock encode disk cmdline)
              (finish_grub system parsers clock encode disk cmdline)
              h)
    finish_stage-FailsRemoved disk no_method cmdline h = finish_grub-FailsRemoved disk cmdline h
    finish_stage-FailsRemoved disk rescue_direct cmdline h = finish_grub-FailsRemoved disk cmdline h
    finish_stage-FailsRemoved disk staged_kexec cmdline h = tt
    finish_stage-FailsRemoved disk staged_grub cmdline h = finish_grub-FailsRemoved disk cmdline h

    module _ (disk : TargetDisk) (image executable : Bytes) (manifest : Manifest)
        (memory_bytes : ℕ) where
      prepare_stage-FailsRemoved :
          (h : History)
          → is_left system build_path h ≡ false
          → FailsRemoved cleaned system (
              prepare_stage system parsers clock encode disk image executable manifest memory_bytes
                h)
      unfolding prepare_stage
      prepare_stage-FailsRemoved h unleft =
          unleft_FailsRemoved (partly system [] [] (check_disk system disk) h) _
            (nothing-is_left (check_disk system disk h) (check_disk-is_left disk h ∙ unleft))
            (λ cmdline h1 unleft1.
              unleft_FailsRemoved
                (partly system [] [] (perform system (make_dir kexec_stage_dir) not_made) h1) _
                (nothing-is_left (perform system (make_dir kexec_stage_dir) not_made h1) unleft1)
                (λ u1 h2 unleft2.
                  then_FailsRemoved
                    (partly system (build_path ∷ []) (kexec_stage_dir ∷ [])
                      (build_stage system parsers clock encode disk image executable manifest
                        memory_bytes)
                      h2)
                    _ (partly-FailsRemoved _ _ _)
                    (λ u2 h3.
                      finish_stage-FailsRemoved disk disk.method (writer_cmdline cmdline) h3)))

      -- From a history that leaves no initramfs at the path where it is built: where `prepare_stage`
      -- ends in an error, whatever the build and the commands did, none is left there: behind the last
      -- call that could have made a file there comes a removal that succeeded or found none. Or the
      -- removal failed, and it is among the errors that are returned.
      pub prepare_stage-IsRemoved :
          (h h' : History) (e : StageError) (failed : List Event)
          → is_left system build_path h ≡ false
          → prepare_stage system parsers clock encode disk image executable manifest memory_bytes h
            ≡ (err (e, failed), h')
          → IsRemoved system failed h'
      prepare_stage-IsRemoved h h' e failed unleft eq =
          subst (FailsRemoved cleaned system) eq (prepare_stage-FailsRemoved h unleft)
