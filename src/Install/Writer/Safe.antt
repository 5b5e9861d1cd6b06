-- ===== src/Install/Writer/Safe.antt =====
-- On internal/install/writer_linux.go: the writer where it opens the target, and where it reboots.
use mikrotik_chr_script.Common.{
  ℕ, ◌≤◌, ◌<◌, ◌≡◌, ◌⊎◌, inl, inr, refl, sym, subst, ap, ◌∙◌, Bool, true, not, ◌||◌, ◌==◌, length,
  take, In, List, [], ◌∷◌, ◌++◌, Option, none, some, arith,
}
use mikrotik_chr_script.Common.Bytes.{Bytes, bytes_eq, bytes_eq→eq}
use mikrotik_chr_script.Common.Outcome.{
  Result, ok, ◌>>=◌, reject_if, wrap_err, from_option, >>=-eq-ok, Result-cases,
}
use mikrotik_chr_script.Disk.Fingerprint.{Fingerprint, select_authorized_fingerprint}
use mikrotik_chr_script.Network.Address.{Parsers}
use mikrotik_chr_script.Install.Manifest.{Manifest, validate_manifest}
use mikrotik_chr_script.Install.Write.{Source, Target, Copy, copy_image, hash_prefix}
use mikrotik_chr_script.Install.Write.Copied.{copy_image-ok}
use mikrotik_chr_script.Install.Write.Verified.{hash_prefix-ok}
use mikrotik_chr_script.Install.Writer.Unmounted.{IsUnmounted, ensure_unmounted-IsUnmounted}
use mikrotik_chr_script.Install.Writer.{
  World, WriterError, find_fingerprint, wait_for_fingerprint, ensure_unmounted, authorize, copied,
  write_and_verify, run_writer, read_manifest, manifest_error, hash_image, image_changed,
  stat_failed, not_a_device, select_error, open_source, open_target, sync_failed, close_failed,
  source_changed, open_readback, flush_failed, verify_error, mismatch,
}

find_fingerprint-ok :
    (expected : Fingerprint) (poll : Option (List Fingerprint)) {path : Bytes}
    → find_fingerprint expected poll ≡ ok path
    → (candidates : List Fingerprint) × (match : Fingerprint) × (poll ≡ some candidates)
      × (select_authorized_fingerprint expected candidates ≡ ok match)
      × (match.path ≡ path)
unfolding find_fingerprint
find_fingerprint-ok expected none e = absurd cc
find_fingerprint-ok expected (some candidates) e =
    let (match, selected, path_eq) =
      >>=-eq-ok (wrap_err select_error (select_authorized_fingerprint expected candidates)) _ e in
    (candidates, match, refl, ground arith, ground arith)

-- One of the polls showed the authorized disk, at the path returned.
abbrev pub Polled : Fingerprint → List (Option (List Fingerprint)) → Bytes → Type 0
Polled expected polls path =
    (candidates : List Fingerprint) × (match : Fingerprint) × In (some candidates) polls
    × (select_authorized_fingerprint expected candidates ≡ ok match)
    × (match.path ≡ path)

wait_for_fingerprint-ok :
    (expected : Fingerprint) (poll : Option (List Fingerprint))
    (polls : List (Option (List Fingerprint))) {path : Bytes}
    → wait_for_fingerprint expected poll polls ≡ ok path
    → Polled expected (poll ∷ polls) path
unfolding wait_for_fingerprint
wait_for_fingerprint-ok expected poll [] e =
    let (candidates, match, shown, selected, path_eq) = find_fingerprint-ok expected poll e in
    (candidates, match, inl (sym shown), selected, path_eq)
wait_for_fingerprint-ok expected poll (next ∷ polls) {path} e =
    elim (Result-cases (find_fingerprint expected poll)) [
      | inl (p, got) ↦
          let (candidates, match, shown, selected, path_eq) =
            find_fingerprint-ok expected poll got in
          (candidates, match, inl (sym shown), selected, ground arith)
      | inr (f, failed) ↦
          let (candidates, match, polled, selected, path_eq) =
            wait_for_fingerprint-ok expected next polls (ground arith) in
          (candidates, match, inr polled, selected, path_eq)
    ]

module _ (digest : Bytes → Bytes) (parsers : Parsers) where
  -- What the writer knows before it opens the target
  pub record IsAuthorized (w : World) (m : Manifest) (path : Bytes) : Type 0 where
    pub read_ok : w.manifest ≡ some m
    pub manifest_ok : validate_manifest parsers w.clock m ≡ ok tt
    pub image : Bytes
    pub image_ok : w.image m.image_path ≡ some image
    pub hash_ok : digest image ≡ m.image_sha256
    pub size_ok : length image ≡ m.image_size
    pub disk_ok : Polled m.disk (w.first_poll ∷ w.later_polls) path
    pub unmounted : IsUnmounted (w.mounts path)
    pub is_device : w.stat path ≡ some true

  IsAuthorized-at :
      {w : World} {m m' : Manifest} {path path' : Bytes}
      → m ≡ m'
      → path ≡ path'
      → IsAuthorized w m path
      → IsAuthorized w m' path'
  IsAuthorized-at {w} {m} {m'} {path} same same' r =
      subst (λ n. IsAuthorized w m' n) same' (subst (λ n. IsAuthorized w n path) same r)

  -- Where `authorize` gives a manifest and a path, the manifest is the one that was read and passes its
  -- checks, the image at its path has its hash and its size, one of the polls showed the disk that the
  -- policy selects for its fingerprint, at the path given, which is a device, and neither a mounted file
  -- system nor a swap area has the device number of the disk or of one of its partitions.
  pub authorize-IsAuthorized :
      (w : World) {m : Manifest} {path : Bytes}
      → authorize digest parsers w ≡ ok (m, path)
      → IsAuthorized w m path
  unfolding authorize
  authorize-IsAuthorized w {m} {path} e =
      let (manifest, read, e1) = >>=-eq-ok (from_option read_manifest w.manifest) _ e in
      let (u2, valid, e2) =
        >>=-eq-ok (wrap_err manifest_error (validate_manifest parsers w.clock manifest)) _ e1 in
      let (image, hashed, e3) =
        >>=-eq-ok (from_option hash_image (w.image manifest.image_path)) _ e2 in
      let (u4, unchanged, e4) =
        >>=-eq-ok
          (reject_if
            (not (bytes_eq (digest image) manifest.image_sha256)
              || not (length image == manifest.image_size))
            image_changed)
          _ e3 in
      let (found_path, waited, e5) =
        >>=-eq-ok (wait_for_fingerprint manifest.disk w.first_poll w.later_polls) _ e4 in
      let (u6, free, e6) = >>=-eq-ok (ensure_unmounted (w.mounts found_path)) _ e5 in
      let (is_device, stat, e7) = >>=-eq-ok (from_option stat_failed (w.stat found_path)) _ e6 in
      let (u8, device, e8) = >>=-eq-ok (reject_if (not is_device) not_a_device) _ e7 in
      let r : IsAuthorized w manifest found_path = record {
        read_ok = ground arith;
        manifest_ok = ground arith;
        image = image;
        image_ok = ground arith;
        hash_ok = bytes_eq→eq (digest image) manifest.image_sha256 (ground arith);
        size_ok = ground arith;
        disk_ok = wait_for_fingerprint-ok manifest.disk w.first_poll w.later_polls waited;
        unmounted = ensure_unmounted-IsUnmounted (w.mounts found_path) free;
        is_device = ground arith;
      } in
      let same_manifest : manifest ≡ m = ground arith in
      let same_path : found_path ≡ path = ground arith in IsAuthorized-at same_manifest same_path r

  -- What a verified target holds: behind its old content the first bytes of the source, as many as
  -- the manifest says and with the manifest's hash; and what is read back has that hash too.
  pub record IsVerified (w : World) (m : Manifest) (path : Bytes) (written : Target) : Type 0 where
    pub source : Source
    pub target : Target
    pub readback : Source
    pub opened : (w.source m.image_path ≡ some source) × (w.target path ≡ some target)
    pub read_again : w.readback path written ≡ some readback
    pub some_bytes : 0 < m.image_size
    pub enough : m.image_size ≤ length source.rest
    pub content_ok : written.content ≡ target.content ++ take m.image_size source.rest
    pub hash_ok : digest (take m.image_size source.rest) ≡ m.image_sha256
    pub readback_ok : digest (take m.image_size readback.rest) ≡ m.image_sha256

  copied-ok :
      (source : Source) (target : Target) (size : ℕ) {hash : Bytes} {written : Target}
      → copied digest parsers source target size ≡ ok (hash, written)
      → (0 < size)
        × (size ≤ length source.rest)
        × (hash ≡ digest (take size source.rest))
        × (written.content ≡ target.content ++ take size source.rest)
  copied-ok source target size {hash} {written} e =
      let s : Copy = (copy_image digest source target size).1 in
      let copy_ok : copy_image digest source target size ≡ (ok hash, s) = ground arith in
      let (pos, enough, room, hash_eq, content_eq) =
        copy_image-ok digest source target size copy_ok in
      let same : s.target ≡ written = ground arith in
      (pos, enough, hash_eq, ap (λ t. t.content) (sym same) ∙ content_eq)

  write_and_verify-IsVerified :
      (w : World) (m : Manifest) (path : Bytes) {written : Target}
      → write_and_verify digest parsers w m path ≡ ok written
      → IsVerified w m path written
  unfolding write_and_verify
  write_and_verify-IsVerified w m path {written} e =
      let (source, opened, e1) = >>=-eq-ok (from_option open_source (w.source m.image_path)) _ e in
      let (target, opened_target, e2) = >>=-eq-ok (from_option open_target (w.target path)) _ e1 in
      let (copy, copied_ok, e3) =
        >>=-eq-ok (copied digest parsers source target m.image_size) _ e2 in
      let (u4, synced, e4) = >>=-eq-ok (reject_if (not w.sync_ok) sync_failed) _ e3 in
      let (u5, closed, e5) = >>=-eq-ok (reject_if (not w.close_ok) close_failed) _ e4 in
      let (u6, same, e6) =
        >>=-eq-ok (reject_if (not (bytes_eq copy.0 m.image_sha256)) source_changed) _ e5 in
      let (readback, again, e7) =
        >>=-eq-ok (from_option open_readback (w.readback path copy.1)) _ e6 in
      let (u8, flushed, e8) = >>=-eq-ok (reject_if (not w.flush_ok) flush_failed) _ e7 in
      let (hash, hashed, e9) =
        >>=-eq-ok (wrap_err verify_error (hash_prefix digest readback m.image_size)) _ e8 in
      let (u10, matches, e10) =
        >>=-eq-ok (reject_if (not (bytes_eq hash m.image_sha256)) mismatch) _ e9 in
      let (pos, enough, hash_eq, content_eq) = copied-ok source target m.image_size copied_ok in
      let hash_ok : hash_prefix digest readback m.image_size ≡ ok hash = ground arith in
      let (pos', enough', read_eq) = hash_prefix-ok digest readback m.image_size hash_ok in
      let written_eq : copy.1 ≡ written = ground arith in
      subst (IsVerified w m path) written_eq (record {
        source = source;
        target = target;
        readback = readback;
        opened = (ground arith, ground arith);
        read_again = ground arith;
        some_bytes = pos;
        enough = enough;
        content_ok = content_eq;
        hash_ok = sym hash_eq ∙ bytes_eq→eq copy.0 m.image_sha256 (ground arith);
        readback_ok = sym read_eq ∙ bytes_eq→eq hash m.image_sha256 (ground arith);
      })

  -- A writer that calls the reboot, or that succeeds, has read a manifest and found a path for which it
  -- was authorized, and has verified what it wrote at that path; the reboot was called if and only if it
  -- was asked for.
  pub run_writer-IsVerified :
      (w : World) (reboot called : Bool) (r : Result WriterError (Unit {0}))
      → run_writer digest parsers w reboot ≡ (called, r)
      → (called ≡ true) ⊎ (r ≡ ok tt)
      → (m : Manifest) × (path : Bytes) × (written : Target) × IsAuthorized w m path
        × IsVerified w m path written
        × (called ≡ reboot)
  unfolding run_writer
  run_writer-IsVerified w reboot called r e safe =
      elim (Result-cases (
        authorize digest parsers w >>= λ found.
        write_and_verify digest parsers w found.0 found.1)) [
          | inl (written, verified) ↦
              let (found, authorized, written_ok) =
                >>=-eq-ok (authorize digest parsers w) _ verified in
              (
                found.0,
                found.1,
                written,
                authorize-IsAuthorized w authorized,
                write_and_verify-IsVerified w found.0 found.1 written_ok,
                ground arith,
              )
          | inr (f, failed) ↦ absurd (ground arith)
        ]
