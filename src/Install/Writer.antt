-- ===== src/Install/Writer.antt =====
-- internal/install/writer_linux.go: the writer that runs in the staged system. What the system calls
-- answer is the record `World`; `digest` stands for SHA-256 in hexadecimal, and `parsers` for what
-- network.Validate calls. What is logged is left out.
pub mod Unmounted
pub mod Safe
use mikrotik_chr_script.Common.{
  ℕ, zero, suc, ◌+◌, Bool, true, false, not, ◌&&◌, ◌||◌, ltb, leb, ◌==◌, if◌then◌else◌, length,
  List, [], ◌∷◌, ◌++◌, Option, none, some, any_of, keep, get_or, map,
}
use mikrotik_chr_script.Common.Bytes.{Bytes, bytes_eq}
use mikrotik_chr_script.Common.Text.{codes, is_empty, has_prefix, fields}
use mikrotik_chr_script.Common.Outcome.{
  Result, ok, err, ◌>>=◌, ◌>>◌, reject_if, wrap_err, from_option,
}
use mikrotik_chr_script.Disk.Fingerprint.{Fingerprint, SelectError, select_authorized_fingerprint}
use mikrotik_chr_script.Network.Address.{Parsers}
use mikrotik_chr_script.Install.Manifest.{Manifest, ManifestError, validate_manifest}
use mikrotik_chr_script.Install.Write.{Source, Target, Copy, Error, copy_image, hash_prefix}

-- An entry of /sys/class/block: whether it has the file `partition`, what its link resolves to, and
-- its device number.
pub record BlockEntry : Type 0 where
  pub is_partition : Bool
  pub resolved : Bytes
  pub dev : Bytes

-- What `ensureUnmounted` reads. A file that cannot be opened or scanned to its end is `none`.
pub record Mounts : Type 0 where
  pub target_dev : Bytes
  pub target_resolved : Bytes
  pub entries : List BlockEntry
  pub mountinfo : Option (List Bytes)
  pub swaps : Option (List Bytes)
  pub device_of : Bytes → Option Bytes

-- What `os.Open`, `Sync`, `Close` and the like answer, in the order of the calls. What a path is asked
-- for depends on the path: `image` is what HashFile reads there, `stat` whether it is a device, `source`
-- and `target` what is opened for the copy, and `readback` what is opened behind it, where `target` of
-- the same path has become the one given.
pub record World : Type 0 where
  pub clock : ℕ
  pub manifest : Option Manifest
  pub image : Bytes → Option Bytes
  pub first_poll : Option (List Fingerprint)
  pub later_polls : List (Option (List Fingerprint))
  pub mounts : Bytes → Mounts
  pub stat : Bytes → Option Bool
  pub source : Bytes → Option Source
  pub target : Bytes → Option Target
  pub sync_ok : Bool
  pub close_ok : Bool
  pub readback : Bytes → Target → Option Source
  pub flush_ok : Bool
  pub reboot_ok : Bool

pub data WriterError : Type 0 where
  read_manifest hash_image image_changed list_failed : WriterError
  manifest_error : ManifestError → WriterError
  select_error : SelectError → WriterError
  mounts_unreadable mounted active_swap stat_failed not_a_device open_source open_target :
      WriterError
  write_error verify_error : Error → WriterError
  sync_failed close_failed source_changed open_readback flush_failed mismatch reboot_failed :
      WriterError

unfoldable pub find_fingerprint : Fingerprint → Option (List Fingerprint) → Result WriterError Bytes
find_fingerprint expected none = err list_failed
find_fingerprint expected (some candidates) =
    wrap_err select_error (select_authorized_fingerprint expected candidates) >>= λ match.
    ok match.path

-- `polls` are the observations behind the first one until the deadline has passed.
unfoldable pub wait_for_fingerprint :
    Fingerprint
    → Option (List Fingerprint)
    → List (Option (List Fingerprint))
    → Result WriterError Bytes
wait_for_fingerprint expected poll [] = find_fingerprint expected poll
wait_for_fingerprint expected poll (next ∷ polls) =
    let later = wait_for_fingerprint expected next polls in
    elim (find_fingerprint expected poll) [ ok path ↦ ok path | err e ↦ later ]

-- A partition of the target: it stands below the target's directory, and has a device number.
abbrev pub is_target_partition : Mounts → BlockEntry → Bool
is_target_partition m entry =
    entry.is_partition
    && not (is_empty m.target_resolved)
    && has_prefix (m.target_resolved ++ codes "/") entry.resolved
    && not (is_empty entry.dev)

abbrev pub device_ids : Mounts → List Bytes
device_ids m = m.target_dev ∷ map (λ entry. entry.dev) (keep (is_target_partition m) m.entries)

abbrev pub holds_device : List Bytes → Bytes → Bool
holds_device ids id = any_of (bytes_eq id) ids

abbrev pub mounts_target : List Bytes → Bytes → Bool
mounts_target ids line =
    let words = fields line in ltb 2 (length words) && holds_device ids (get_or words 2 [])

abbrev pub known_device : List Bytes → Option Bytes → Bool
known_device ids none = false
known_device ids (some id) = holds_device ids id

abbrev pub swap_device : Mounts → List Bytes → List Bytes → Bool
swap_device m ids [] = false
swap_device m ids (word ∷ words) =
    not (bytes_eq word (codes "Filename")) && known_device ids (m.device_of word)

abbrev pub swaps_on_target : Mounts → List Bytes → Bytes → Bool
swaps_on_target m ids line = swap_device m ids (fields line)

unfoldable pub ensure_unmounted : Mounts → Result WriterError (Unit {0})
ensure_unmounted m = do
  mountinfo ← from_option mounts_unreadable m.mountinfo
  reject_if (any_of (mounts_target (device_ids m)) mountinfo) mounted
  swaps ← from_option mounts_unreadable m.swaps
  reject_if (any_of (swaps_on_target m (device_ids m)) swaps) active_swap

module _ (digest : Bytes → Bytes) (parsers : Parsers) where
  -- Up to the opened target: the manifest, and the path of the target.
  unfoldable pub authorize : World → Result WriterError (Manifest × Bytes)
  authorize w = do
    manifest ← from_option read_manifest w.manifest
    wrap_err manifest_error (validate_manifest parsers w.clock manifest)
    image ← from_option hash_image (w.image manifest.image_path)
    reject_if
        (not (bytes_eq (digest image) manifest.image_sha256)
          || not (length image == manifest.image_size))
        image_changed
    path ← wait_for_fingerprint manifest.disk w.first_poll w.later_polls
    ensure_unmounted (w.mounts path)
    is_device ← from_option stat_failed (w.stat path)
    reject_if (not is_device) not_a_device
    ok (manifest, path)

  -- The hash that was written, and the target behind the copy
  abbrev copied : Source → Target → ℕ → Result WriterError (Bytes × Target)
  copied source target size =
      let (result, s) = copy_image digest source target size in
      wrap_err write_error result >>= λ hash. ok (hash, s.target)

  -- From the opened source to the verified read-back: the target as it was written.
  unfoldable pub write_and_verify : World → Manifest → Bytes → Result WriterError Target
  write_and_verify w manifest path = do
    source ← from_option open_source (w.source manifest.image_path)
    target ← from_option open_target (w.target path)
    (written_hash, written) ← copied source target manifest.image_size
    reject_if (not w.sync_ok) sync_failed
    reject_if (not w.close_ok) close_failed
    reject_if (not (bytes_eq written_hash manifest.image_sha256)) source_changed
    readback ← from_option open_readback (w.readback path written)
    reject_if (not w.flush_ok) flush_failed
    readback_hash ← wrap_err verify_error (hash_prefix digest readback manifest.image_size)
    reject_if (not (bytes_eq readback_hash manifest.image_sha256)) mismatch
    ok written

  -- Whether the reboot was called, and the result.
  unfoldable pub run_writer : World → Bool → Bool × Result WriterError (Unit {0})
  run_writer w reboot =
      let verified = authorize w >>= λ found. write_and_verify w found.0 found.1 in
      elim verified [
        | ok target ↦
            if reboot
            then (true, if w.reboot_ok then ok tt else err reboot_failed)
            else (false, ok tt)
        | err e ↦ (false, err e)
      ]
