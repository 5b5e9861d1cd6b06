-- ===== src/Disk/Fingerprint.antt =====
-- internal/disk/fingerprint.go: FingerprintsMatch and SelectAuthorizedFingerprint, on the
-- DiskFingerprint of internal/model/model.go. The texts are ASCII.
pub mod Authorized
use mikrotik_chr_script.Common.{
  ℕ, Bool, true, false, not, ◌&&◌, ◌||◌, List, [], ◌∷◌, ◌==◌, if◌then◌else◌, length, keep,
}
use mikrotik_chr_script.Common.Bytes.{Bytes, bytes_eq}
use mikrotik_chr_script.Common.Text.{
  codes, trim_space, to_lower, is_empty, equal_fold, trim_prefix, remove_byte,
}
use mikrotik_chr_script.Common.Outcome.{Result, ok, err}

pub record Fingerprint : Type 0 where
  pub path : Bytes
  pub kernel_name : Bytes
  pub major_minor : Bytes
  pub size_bytes : ℕ
  pub model : Bytes
  pub serial : Bytes
  pub wwn : Bytes
  pub transport : Bytes
  pub driver : Bytes

-- `strings.TrimSpace(s) != ""`
abbrev pub is_set : Bytes → Bool
is_set s = not (is_empty (trim_space s))

unfoldable pub has_stable_identity : Fingerprint → Bool
has_stable_identity f = is_set f.wwn || is_set f.serial

unfoldable pub normalize_identity : Bytes → Bytes
normalize_identity value =
    let lower = to_lower (trim_space value) in
    let without_naa = trim_prefix (codes "naa.") lower in
    let without_eui = trim_prefix (codes "eui.") without_naa in
    remove_byte b'-' (trim_prefix (codes "0x") without_eui)

-- The test on a WWN or a serial number that is expected
abbrev pub same_identity : Bytes → Bytes → Bool
same_identity expected candidate =
    is_set candidate && bytes_eq (normalize_identity expected) (normalize_identity candidate)

-- The fallback: names that the kernel assigns
abbrev pub same_kernel_names : Fingerprint → Fingerprint → Bool
same_kernel_names expected candidate =
    not (is_empty expected.kernel_name || is_empty expected.major_minor || is_empty expected.driver)
    && bytes_eq expected.kernel_name candidate.kernel_name
    && bytes_eq expected.major_minor candidate.major_minor

abbrev pub identities_match : Fingerprint → Fingerprint → Bool
identities_match expected candidate =
    if is_set expected.wwn
    then same_identity expected.wwn candidate.wwn
    else if is_set expected.serial
    then same_identity expected.serial candidate.serial
    else same_kernel_names expected candidate

abbrev pub drivers_match : Fingerprint → Fingerprint → Bool
drivers_match expected candidate =
    if is_set expected.driver
    then is_set candidate.driver
      && equal_fold (trim_space expected.driver) (trim_space candidate.driver)
    else true

unfoldable pub fingerprints_match : Fingerprint → Fingerprint → Bool
fingerprints_match expected candidate =
    if expected.size_bytes == 0 || not (expected.size_bytes == candidate.size_bytes)
    then false
    else identities_match expected candidate && drivers_match expected candidate

pub data SelectError : Type 0 where
  fallback_needs_one matched : ℕ → SelectError

-- `matches[0]`, where there is exactly one
abbrev the_only : List Fingerprint → Result SelectError Fingerprint
the_only (match ∷ []) = ok match
the_only matches = err (matched (length matches))

unfoldable pub select_authorized_fingerprint :
    Fingerprint → List Fingerprint → Result SelectError Fingerprint
select_authorized_fingerprint expected candidates =
    if not (has_stable_identity expected) && not (length candidates == 1)
    then err (fallback_needs_one (length candidates))
    else the_only (keep (fingerprints_match expected) candidates)
