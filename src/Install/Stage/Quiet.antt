-- ===== src/Install/Stage/Quiet.antt =====
-- On internal/install/stage.go and initramfs.go: the steps that leave the boot entry of GRUB as it is.
use mikrotik_chr_script.Common.{
  ℕ, ◌≡◌, refl, ◌∙◌, Bool, true, false, List, [], ◌∷◌, none, some, arith,
}
use mikrotik_chr_script.Common.Bytes.{Bytes}
use mikrotik_chr_script.Common.Text.{trim_space}
use mikrotik_chr_script.Common.Paths.{join, dir}
use mikrotik_chr_script.Common.Outcome.{Result, ok, err, wrap_err}
use mikrotik_chr_script.Network.Address.{Parsers}
use mikrotik_chr_script.Install.Manifest.{Manifest, validate_manifest}
use mikrotik_chr_script.Install.Calls.{
  Event, make_dir, History, Tree, Entries, unread_path, other_path, unlisted, folder, plain_file,
  link, no_entries, entry, System, Step, bind_step, ◌>>=◌, ◌>>◌, run_command, perform, wrap_step,
  pure_step,
}
use mikrotik_chr_script.Install.Boot.{arm, unset, attempt_removal}
use mikrotik_chr_script.Install.Boot.Grub.{same_command, is_armed}
use mikrotik_chr_script.Install.Initramfs.{
  BuildError, copy_failed, make_failed, invalid_manifest, copy_tree, copy_entries, make_temporary,
  check_made, run_mkinitramfs, without_tree, write_manifest, fill_configuration, check_inputs,
  build_initramfs,
}
use mikrotik_chr_script.Install.Stage.{
  StageError, remove_all, cleanup_partial_stage, or_clean, partly,
}

-- A step behind which the boot entry is what it was, whatever the step returns
pub record Keeps {E A : Type 0} (path : Bytes) (m : Step E A) : Type 0 where
  pub kept : (h : History) → is_armed path (m h).1 ≡ is_armed path h

module _ (path : Bytes) where
  bind_step-is_armed :
      {E A B : Type 0} (r : Result E A × History) (f : A → Step E B)
      → ((a : A) → Keeps path (f a))
      → is_armed path (bind_step r f).1 ≡ is_armed path r.1
  bind_step-is_armed (ok a, h) f keeps = (keeps a).kept h
  bind_step-is_armed (err e, h) f keeps = refl

  pub >>=-Keeps :
      {E A B : Type 0} (m : Step E A) {f : A → Step E B}
      → Keeps path m
      → ((a : A) → Keeps path (f a))
      → Keeps path (m >>= f)
  >>=-Keeps m {f} first rest = record { kept = λ h. bind_step-is_armed (m h) f rest ∙ first.kept h }

  pub run_command-Keeps :
      {E : Type 0} (system : System) (argv : List Bytes) (e : E)
      → same_command argv arm ≡ false
      → same_command argv (unset path) ≡ false
      → Keeps path (run_command system argv e)
  run_command-Keeps system argv e no_arm no_unset = record {
    kept = λ h. rw (no_arm, no_unset) refl;
  }

  pub wrap_step-Keeps :
      {E F A : Type 0} (f : E → F) {m : Step E A} → Keeps path m → Keeps path (wrap_step f m)
  wrap_step-Keeps f keeps = record { kept = keeps.kept }

  -- A step that makes no call, and one whose only call is no command
  pub silent :
      {E A : Type 0} {m : Step E A}
      → ((h : History) → is_armed path (m h).1 ≡ is_armed path h)
      → Keeps path m
  silent same = record { kept = same }

  -- A call that makes something, in front of the rest
  pub perform-Keeps :
      {E B : Type 0} (system : System) (event : Event) (e : E) {k : Step E B}
      → ((h : History) → is_armed path (event ∷ h) ≡ is_armed path h)
      → Keeps path k
      → Keeps path (perform system event e >> k)
  perform-Keeps system event e {k} same rest =
      >>=-Keeps (perform system event e) (silent same) (λ u. rest)

  module _ (system : System) where
    remove_all-is_armed :
        (directories : Bool) (ps : List Bytes) (s : List Event × History)
        → is_armed path (remove_all system directories ps s).1 ≡ is_armed path s.1
    remove_all-is_armed directories [] s = refl
    remove_all-is_armed directories (p ∷ ps) s =
        remove_all-is_armed directories ps (attempt_removal system directories p s)

    cleanup_partial_stage-is_armed :
        (files directories : List Bytes) (h : History)
        → is_armed path (cleanup_partial_stage system files directories h).1 ≡ is_armed path h
    unfolding cleanup_partial_stage
    cleanup_partial_stage-is_armed files directories h =
        remove_all-is_armed true directories (remove_all system false files ([], h))
        ∙ remove_all-is_armed false files ([], h)

    or_clean-is_armed :
        {A : Type 0} (files directories : List Bytes) (r : Result StageError A × History)
        → is_armed path (or_clean system files directories r).1 ≡ is_armed path r.1
    or_clean-is_armed files directories (ok a, h) = refl
    or_clean-is_armed files directories (err e, h) =
        cleanup_partial_stage-is_armed files directories h

    pub partly-Keeps :
        {A : Type 0} (files directories : List Bytes) {m : Step StageError A}
        → Keeps path m
        → Keeps path (partly system files directories m)
    partly-Keeps files directories {m} keeps = record {
      kept = λ h. or_clean-is_armed files directories (m h) ∙ keeps.kept h;
    }

    check_made-is_armed :
        (output : Bytes) (r : Result BuildError Bytes × History)
        → is_armed path (check_made system output r).1 ≡ is_armed path r.1
    check_made-is_armed output (err e, h) = refl
    check_made-is_armed output (ok text, h) = ground arith

    pub make_temporary-Keeps : (parent : Bytes) → Keeps path (make_temporary system parent)
    make_temporary-Keeps parent = record { kept = λ h. ground arith }

    pub run_mkinitramfs-Keeps :
        (config output version : Bytes) → Keeps path (run_mkinitramfs system config output version)
    run_mkinitramfs-Keeps config output version = record {
      kept = λ h. check_made-is_armed output (run_command system _ _ h);
    }

-- The copy of a tree makes files only.
mutual
  unfolding copy_tree

  copy_tree-Keeps :
      (path : Bytes) (system : System) (tree : Tree) (source destination : Bytes)
      → Keeps path (copy_tree system tree source destination)
  copy_tree-Keeps path system unread_path source destination = silent path (λ h. refl)
  copy_tree-Keeps path system other_path source destination = silent path (λ h. refl)
  copy_tree-Keeps path system unlisted source destination =
      perform-Keeps path system (make_dir destination) copy_failed (λ h. refl)
        (silent path (λ h. refl))
  copy_tree-Keeps path system (folder entries) source destination =
      perform-Keeps path system (make_dir destination) copy_failed (λ h. refl)
        (copy_entries-Keeps path system entries source destination)
  copy_tree-Keeps path system plain_file source destination = silent path (λ h. refl)
  copy_tree-Keeps path system (link none) source destination = silent path (λ h. refl)
  copy_tree-Keeps path system (link (some target)) source destination = silent path (λ h. refl)

  copy_entries-Keeps :
      (path : Bytes) (system : System) (entries : Entries) (source destination : Bytes)
      → Keeps path (copy_entries system entries source destination)
  copy_entries-Keeps path system no_entries source destination = silent path (λ h. refl)
  copy_entries-Keeps path system (entry name tree rest) source destination =
      >>=-Keeps path (copy_tree system tree (join source name) (join destination name))
        (copy_tree-Keeps path system tree (join source name) (join destination name))
        (λ u. copy_entries-Keeps path system rest source destination)

module _ (path : Bytes) (system : System) where
  without_tree-Keeps :
      (config : Bytes) {m : Step BuildError (Unit {0})}
      → Keeps path m
      → Keeps path (without_tree system config m)
  without_tree-Keeps config keeps = record { kept = keeps.kept }

  module _ (parsers : Parsers) (clock : ℕ) (encode : Manifest → Bytes) where
    write_manifest-Keeps :
        (to : Bytes) (m : Manifest) → Keeps path (write_manifest system parsers clock encode to m)
    unfolding write_manifest
    write_manifest-Keeps to m =
        >>=-Keeps path (pure_step (wrap_err invalid_manifest (validate_manifest parsers clock m)))
          (silent path (λ h. refl)) (λ u. silent path (λ h. refl))

    fill_configuration-Keeps :
        (source config executable image : Bytes) (manifest : Manifest)
        → Keeps path
            (fill_configuration system parsers clock encode source config executable image manifest)
    unfolding fill_configuration
    fill_configuration-Keeps source config executable image manifest =
        >>=-Keeps path (λ h. copy_tree system (system.tree h source) source config h)
          (silent path
            (λ h. (copy_tree-Keeps path system (system.tree h source) source config).kept h))
          (λ u1.
            perform-Keeps path system _ make_failed (λ h. refl)
              (perform-Keeps path system _ make_failed (λ h. refl)
                (perform-Keeps path system _ make_failed (λ h. refl)
                  (perform-Keeps path system _ make_failed (λ h. refl)
                    (perform-Keeps path system _ make_failed (λ h. refl)
                      (>>=-Keeps path (write_manifest system parsers clock encode _ _)
                        (write_manifest-Keeps _ _)
                        (λ u7.
                          perform-Keeps path system _ make_failed (λ h. refl)
                            (silent path (λ h. refl)))))))))

    check_inputs-Keeps :
        (modules version output executable image : Bytes) (manifest : Manifest)
        → Keeps path (
            check_inputs system parsers clock encode modules version output executable image
              manifest)
    unfolding check_inputs
    check_inputs-Keeps modules version output executable image manifest =
        silent path (λ h. ground arith)

    pub build_initramfs-Keeps :
        (source modules version output executable image : Bytes) (manifest : Manifest)
        → Keeps path (
            build_initramfs system parsers clock encode source modules version output executable
              image manifest)
    unfolding build_initramfs
    build_initramfs-Keeps source modules version output executable image manifest =
        >>=-Keeps path
          (check_inputs system parsers clock encode modules (trim_space version) output executable
            image manifest)
          (check_inputs-Keeps modules (trim_space version) output executable image manifest)
          (λ u1.
            >>=-Keeps path (make_temporary system (dir output))
              (make_temporary-Keeps path system (dir output))
              (λ config. without_tree-Keeps config (
                >>=-Keeps path
                  (fill_configuration system parsers clock encode source config executable image
                    manifest)
                  (fill_configuration-Keeps source config executable image manifest)
                  (λ u2. run_mkinitramfs-Keeps path system config output (trim_space version)))))
