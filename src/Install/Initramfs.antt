-- ===== src/Install/Initramfs.antt =====
-- internal/install/initramfs.go: the initramfs of the staged writer, with the hook that copies the
-- payload into it. The permission bits of the files that are made are left out.
pub mod Quoting
use mikrotik_chr_script.Common.{
  ℕ, Bool, true, false, not, ◌||◌, ◌==◌, if◌then◌else◌, List, [], ◌∷◌, ◌++◌, Option, none, some,
  any_of,
}
use mikrotik_chr_script.Common.Bytes.{Bytes}
use mikrotik_chr_script.Common.Text.{codes, trim_space, is_empty}
use mikrotik_chr_script.Common.Paths.{join, dir}
use mikrotik_chr_script.Common.Outcome.{Result, ok, err, reject_if, wrap_err}
use mikrotik_chr_script.Network.Address.{Parsers}
use mikrotik_chr_script.Install.Manifest.{Manifest, ManifestError, validate_manifest}
use mikrotik_chr_script.Install.Calls.{
  Event, run, remove, remove_tree, make_dir, make_file, copy_file, make_link, History, Tree,
  Entries, unread_path, other_path, unlisted, folder, plain_file, link, no_entries, entry, Lookup,
  absent, unreadable, found, FileKind, regular_file, directory_file, other_file, System, Step,
  ◌>>=◌, ◌>>◌, pure_step, run_command, perform,
}

pub data BuildError : Type 0 where
  invalid_manifest : ManifestError → BuildError
  invalid_kernel_version no_modules bad_payload output_exists output_unreadable : BuildError
  no_temporary copy_failed make_failed mkinitramfs_failed no_output not_regular : BuildError

-- `strings.ReplaceAll` of each quote by a quoted one
abbrev pub quoted : Bytes → Bytes
quoted [] = []
quoted (c ∷ s) = let rest = quoted s in if c == 39 then codes "'\"'\"'" ++ rest else c ∷ rest

unfoldable pub shell_quote : Bytes → Bytes
shell_quote value = 39 ∷ (quoted value ++ 39 ∷ [])

abbrev is_forbidden : ℕ → Bool
is_forbidden c = c == b'/' || c == 92 || c == 13 || c == 10 || c == 9

abbrev pub is_regular : Lookup → Bool
is_regular absent = false
is_regular unreadable = false
is_regular (found regular_file n) = true
is_regular (found directory_file n) = false
is_regular (found other_file n) = false

abbrev is_directory : Lookup → Bool
is_directory absent = false
is_directory unreadable = false
is_directory (found regular_file n) = false
is_directory (found directory_file n) = true
is_directory (found other_file n) = false

abbrev check_absent : Lookup → Result BuildError (Unit {0})
check_absent absent = ok tt
check_absent unreadable = err output_unreadable
check_absent (found kind n) = err output_exists

abbrev staged_image_path : Bytes
staged_image_path = codes "/chr-install/chr.img"

abbrev with_image_path : Bytes → Manifest → Manifest
with_image_path path m = record {
  schema = m.schema;
  created_at = m.created_at;
  rtc_offset = m.rtc_offset;
  disk = m.disk;
  image_path = path;
  image_sha256 = m.image_sha256;
  image_size = m.image_size;
  version = m.version;
  network = m.network;
}

abbrev pub lines_of : List Bytes → Bytes
lines_of [] = []
lines_of (l ∷ ls) = l ++ 10 ∷ lines_of ls

unfoldable pub hook_script : Bytes → Bytes → Bytes → Bytes
hook_script executable image manifest = lines_of (
    codes "#!/bin/sh"
    ∷ codes "PREREQ=\"\""
    ∷ codes "prereqs() { echo \"$PREREQ\"; }"
    ∷ codes "case \"${1:-}\" in prereqs) prereqs; exit 0 ;; esac"
    ∷ codes "set -eu"
    ∷ codes "mkdir -p \"$DESTDIR/chr-install\""
    ∷ (codes "cp -p " ++ shell_quote executable ++ codes " \"$DESTDIR/chr-install/chr-install\"")
    ∷ (codes "cp -p " ++ shell_quote image ++ codes " \"$DESTDIR/chr-install/chr.img\"")
    ∷ (codes "cp -p " ++ shell_quote manifest ++ codes " \"$DESTDIR/chr-install/manifest.json\"")
    ∷ codes "chmod 0700 \"$DESTDIR/chr-install/chr-install\""
    ∷ codes "chmod 0600 \"$DESTDIR/chr-install/chr.img\" \"$DESTDIR/chr-install/manifest.json\""
    ∷ [])

abbrev premount_script : Bytes
premount_script = lines_of (
    codes "#!/bin/sh"
    ∷ codes "PREREQ=\"\""
    ∷ codes "prereqs() { echo \"$PREREQ\"; }"
    ∷ codes "case \"${1:-}\" in prereqs) prereqs; exit 0 ;; esac"
    ∷ codes "cmdline=\"\""
    ∷ codes "IFS= read -r cmdline </proc/cmdline || true"
    ∷ codes "case \" $cmdline \" in"
    ∷ codes
        "  *\" chr.install=1 \"*) exec /chr-install/chr-install --internal-writer /chr-install/manifest.json ;;"
    ∷ codes "esac"
    ∷ codes "exit 0"
    ∷ [])

abbrev mkinitramfs : Bytes → Bytes → Bytes → List Bytes
mkinitramfs config output version =
    codes "mkinitramfs" ∷ codes "-d" ∷ config ∷ codes "-o" ∷ output ∷ version ∷ []

-- The files of a directory are copied in their order, and the first error ends the copy.
unfoldable mutual
  pub copy_tree : System → Tree → Bytes → Bytes → Step BuildError (Unit {0})
  copy_tree system unread_path source destination = pure_step (err copy_failed)
  copy_tree system other_path source destination = pure_step (err copy_failed)
  copy_tree system unlisted source destination =
      perform system (make_dir destination) copy_failed >> pure_step (err copy_failed)
  copy_tree system (folder entries) source destination =
      perform system (make_dir destination) copy_failed
      >> copy_entries system entries source destination
  copy_tree system plain_file source destination =
      perform system (copy_file source destination) copy_failed
  copy_tree system (link none) source destination = pure_step (err copy_failed)
  copy_tree system (link (some target)) source destination =
      perform system (make_link target destination) copy_failed

  pub copy_entries : System → Entries → Bytes → Bytes → Step BuildError (Unit {0})
  copy_entries system no_entries source destination = pure_step (ok tt)
  copy_entries system (entry name tree rest) source destination =
      copy_tree system tree (join source name) (join destination name)
      >> copy_entries system rest source destination

module _ (system : System) where
  -- os.MkdirTemp
  abbrev pub make_temporary : Bytes → Step BuildError Bytes
  make_temporary parent h = elim (system.temporary h parent) [
    | none ↦ (err no_temporary, h)
    | some path ↦ (ok path, make_dir path ∷ h)
  ]

  -- A failed call of mkinitramfs removes what it left.
  abbrev pub check_made :
      Bytes → Result BuildError Bytes × History → Result BuildError (Unit {0}) × History
  check_made output (err e, h) = (err e, remove output ∷ h)
  check_made output (ok text, h) = elim (system.lstat h output) [
    | absent ↦ (err no_output, h)
    | unreadable ↦ (err no_output, h)
    | found kind size ↦
        if not (is_regular (found kind size)) || size == 0
        then (err not_regular, remove output ∷ h)
        else (ok tt, h)
  ]

  abbrev pub run_mkinitramfs : Bytes → Bytes → Bytes → Step BuildError (Unit {0})
  run_mkinitramfs config output version h =
      check_made output
        (run_command system (mkinitramfs config output version) mkinitramfs_failed h)

  -- The deferred removal of the configuration
  abbrev pub without_tree : Bytes → Step BuildError (Unit {0}) → Step BuildError (Unit {0})
  without_tree path m h = let r = m h in (r.0, remove_tree path ∷ r.1)

  -- `encode` is json.MarshalIndent; what network.Validate calls is `parsers`, and `clock` is the time.
  module _ (parsers : Parsers) (clock : ℕ) (encode : Manifest → Bytes) where
    unfoldable pub write_manifest : Bytes → Manifest → Step BuildError (Unit {0})
    write_manifest path m =
        pure_step (wrap_err invalid_manifest (validate_manifest parsers clock m))
        >> perform system (make_file path (encode m ++ 10 ∷ [])) make_failed

    -- What is made below the configuration, up to the call of mkinitramfs
    unfoldable pub fill_configuration :
        Bytes → Bytes → Bytes → Bytes → Manifest → Step BuildError (Unit {0})
    fill_configuration source config executable image manifest = do
      (λ h. copy_tree system (system.tree h source) source config h)
      perform system (make_dir (join config (codes "hooks"))) make_failed
      perform system (make_dir (join config (codes "scripts/local-premount"))) make_failed
      perform system (make_dir (join config (codes "conf.d"))) make_failed
      perform system (make_dir (join config (codes "chr-install-payload"))) make_failed
      perform system
          (make_file (join config (codes "conf.d/zz-chr-install-modules"))
            (codes "MODULES=most" ++ 10 ∷ []))
          make_failed
      write_manifest (join config (codes "chr-install-payload/manifest.json"))
          (with_image_path staged_image_path manifest)
      perform system
          (make_file (join config (codes "hooks/zz-chr-install-writer")) (
            hook_script executable image (join config (codes "chr-install-payload/manifest.json"))))
          make_failed
      perform system
          (make_file (join config (codes "scripts/local-premount/zz-chr-install-writer"))
            premount_script)
          make_failed

    unfoldable pub check_inputs :
        Bytes → Bytes → Bytes → Bytes → Bytes → Manifest → Step BuildError (Unit {0})
    check_inputs modules version output executable image manifest = do
      pure_step (wrap_err invalid_manifest (validate_manifest parsers clock manifest))
      pure_step (reject_if (is_empty version || any_of is_forbidden version) invalid_kernel_version)
      (λ h. (reject_if (not (is_directory (system.stat h (join modules version)))) no_modules, h))
      (λ h. (reject_if (not (is_regular (system.stat h executable))) bad_payload, h))
      (λ h. (reject_if (not (is_regular (system.stat h image))) bad_payload, h))
      (λ h. (check_absent (system.lstat h output), h))

    unfoldable pub build_initramfs :
        Bytes → Bytes → Bytes → Bytes → Bytes → Bytes → Manifest → Step BuildError (Unit {0})
    build_initramfs source modules version output executable image manifest = do
      check_inputs modules (trim_space version) output executable image manifest
      config ← make_temporary (dir output)
      without_tree config (
          fill_configuration source config executable image manifest
          >> run_mkinitramfs config output (trim_space version))
