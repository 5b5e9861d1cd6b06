-- ===== src/Mikrotik/Client.antt =====
-- internal/mikrotik/client.go: the release that the server names, the checks in front of a preparation, and
-- the image that is taken out of the archive. What the server and the archive hold are arguments.
pub mod Resolved
use mikrotik_chr_script.Common.{
  ℕ, zero, suc, ◌+◌, ◌*◌, Bool, true, false, not, ◌&&◌, ◌||◌, List, [], ◌∷◌, ◌++◌, Option, none,
  some, ltb, leb, ◌==◌, if◌then◌else◌, length, take, all_of,
}
use mikrotik_chr_script.Common.Bytes.{Bytes, bytes_eq}
use mikrotik_chr_script.Common.Text.{
  codes, is_empty, to_lower, equal_fold, fields, contains, strip_prefix, split,
}
use mikrotik_chr_script.Common.Paths.{base, cut}
use mikrotik_chr_script.Common.Outcome.{
  Result, ok, err, ◌>>◌, ◌>>=◌, reject_if, from_option, wrap_err,
}
use mikrotik_chr_script.Disk.Hex.{hex_decode}

abbrev max_metadata_bytes : ℕ
max_metadata_bytes = 64 * 1024

pub data ClientError : Type 0 where
  bad_request cancelled transport bad_status too_large read_failed out_of_attempts : ClientError
  resolve_failed checksum_failed : ClientError → ClientError
  invalid_version invalid_checksum : ClientError
  unsupported_firmware incomplete_release untested_uefi : ClientError
  bad_zip several_images no_image image_too_large open_failed create_failed : ClientError
  copy_failed sync_failed close_failed truncated : ClientError

-- `/^7\.[0-9]+(?:\.[0-9]+)?$/`
abbrev is_digit : ℕ → Bool
is_digit c = leb 48 c && leb c 57

abbrev pub is_number : Bytes → Bool
is_number s = not (is_empty s) && all_of is_digit s

abbrev pub is_version_tail : List Bytes → Bool
is_version_tail (minor ∷ []) = is_number minor
is_version_tail (minor ∷ patch ∷ []) = is_number minor && is_number patch
is_version_tail (minor ∷ patch ∷ more ∷ rest) = false
is_version_tail [] = false

abbrev pub is_version : Bytes → Bool
is_version s = elim (strip_prefix (codes "7.") s) [
  | none ↦ false
  | some rest ↦ is_version_tail (split b'.' rest)
]

pub record TestedRelease : Type 0 where
  pub bios : Bool
  pub uefi : Bool
  pub uefi_archive_sha256 : Bytes

-- `testedVersions`; an absent version has the zero value.
abbrev pub tested_versions : Bytes → TestedRelease
tested_versions version =
    if bytes_eq version (codes "7.21.5")
    then record {
      bios = true;
      uefi = true;
      uefi_archive_sha256 =
          codes "dbb8f1739da73a68e5167fcbc731a5ba3d50f9d9b195731b96f96fcc58904580";
    }
    else if bytes_eq version (codes "7.23.5")
    then record {
      bios = true;
      uefi = true;
      uefi_archive_sha256 =
          codes "f6b0cde630d59a59ec5fb0d303aa26a8a1723dfbc62e6afc2a27715278c87dd9";
    }
    else record { bios = false; uefi = false; uefi_archive_sha256 = [] }

pub record Release : Type 0 where
  pub version : Bytes
  pub image_url : Bytes
  pub checksum_url : Bytes
  pub checksum : Bytes
  pub tested : Bool
  pub uefi_boot : Bool
  pub compatibility : Bytes

-- An answer to a small request: `body_ok` is false where the body breaks off behind `body`.
pub record SmallResponse : Type 0 where
  pub status : ℕ
  pub content_length : Option ℕ
  pub body : Bytes
  pub body_ok : Bool

-- One attempt: whether the request can be made, the answer, and whether the context is done behind it.
pub record SmallRound : Type 0 where
  pub request_ok : Bool
  pub answer : Option SmallResponse
  pub done : Bool

-- A body, an error that is final, or one behind which the request is made again
pub data Small : Type 0 where
  received : Bytes → Small
  final retryable : ClientError → Small

abbrev is_retryable_status : ℕ → Bool
is_retryable_status status = status == 408 || status == 429 || leb 500 status

abbrev longer : Option ℕ → ℕ → Bool
longer none limit = false
longer (some n) limit = ltb limit n

-- The body is read up to a byte beyond the limit; an error behind that byte does not show.
abbrev read_small : SmallResponse → Small
read_small r =
    if not (r.status == 200)
    then (if is_retryable_status r.status then retryable bad_status else final bad_status)
    else if longer r.content_length max_metadata_bytes
    then final too_large
    else if not (r.body_ok || leb (max_metadata_bytes + 1) (length r.body))
    then retryable read_failed
    else if ltb max_metadata_bytes (length r.body)
    then final too_large
    else received r.body

abbrev answered : Bool → Option SmallResponse → Small
answered done none = if done then final cancelled else retryable transport
answered done (some r) = read_small r

unfoldable pub get_small_once : SmallRound → Small
get_small_once round =
    if not round.request_ok then final bad_request else answered round.done round.answer

abbrev next_small : Result ClientError Bytes → ℕ → Bool → Small → Result ClientError Bytes
next_small again left done (received body) = ok body
next_small again left done (final problem) = err problem
next_small again zero done (retryable problem) = err out_of_attempts
next_small again (suc left) true (retryable problem) = err cancelled
next_small again (suc left) false (retryable problem) = again

-- `rounds` are those behind the first one; four in all.
unfoldable pub get_small_from : ℕ → (ℕ → SmallRound) → Result ClientError Bytes
get_small_from zero round =
    next_small (err out_of_attempts) zero (round zero).done (get_small_once (round zero))
get_small_from (suc left) round =
    next_small (get_small_from left round) (suc left) (round (suc left)).done
      (get_small_once (round (suc left)))

abbrev pub get_small : (ℕ → SmallRound) → Result ClientError Bytes
get_small = get_small_from 3

abbrev pub first_field : Bytes → Option Bytes
first_field body = elim (fields body) [ [] ↦ none | word ∷ rest ↦ some word ]

abbrev pub is_checksum : Bytes → Bool
is_checksum word =
    length word == 64 && elim (hex_decode word) [ none ↦ false | some decoded ↦ true ]

abbrev pub checked_word : (Bytes → Bool) → ClientError → Option Bytes → Result ClientError Bytes
checked_word test problem none = err problem
checked_word test problem (some word) = if test word then ok word else err problem

unfoldable pub fetch_checksum : (ℕ → SmallRound) → Result ClientError Bytes
fetch_checksum rounds = do
  body ← wrap_err checksum_failed (get_small rounds)
  word ← checked_word is_checksum invalid_checksum (first_field body)
  ok (to_lower word)

abbrev pub drop_last_slashes : Bytes → Bytes
drop_last_slashes [] = []
drop_last_slashes (c ∷ s) =
    let rest = drop_last_slashes s in
    elim rest [ [] ↦ if c == b'/' then [] else c ∷ [] | d ∷ r ↦ c ∷ d ∷ r ]

abbrev pub image_url_of : Bytes → Bytes → Bytes
image_url_of download_base version =
    drop_last_slashes download_base
    ++ codes "/"
    ++ version
    ++ codes "/chr-"
    ++ version
    ++ codes ".img.zip"

abbrev pub is_tested_uefi : Bytes → Bytes → Bool
is_tested_uefi version checksum =
    let support = tested_versions version in
    support.uefi
    && not (is_empty support.uefi_archive_sha256)
    && equal_fold checksum support.uefi_archive_sha256

-- The release of a version and a checksum
abbrev pub released : Bytes → Bytes → Bytes → Release
released download_base version checksum = record {
  version = version;
  image_url = image_url_of download_base version;
  checksum_url = image_url_of download_base version ++ codes ".sha256";
  checksum = checksum;
  tested = (tested_versions version).bios;
  uefi_boot = is_tested_uefi version checksum;
  compatibility = codes "pending structural validation";
}

-- The rounds of the two requests
unfoldable pub resolve_latest :
    Bytes → (ℕ → SmallRound) → (ℕ → SmallRound) → Result ClientError Release
resolve_latest download_base version_rounds checksum_rounds = do
  body ← wrap_err resolve_failed (get_small version_rounds)
  version ← checked_word is_version invalid_version (first_field body)
  checksum ← fetch_checksum checksum_rounds
  ok (released download_base version checksum)

-- The test of `Prepare` beside that of the field, a copy of the one above
abbrev pub is_in_boot_matrix : Release → Bool
is_in_boot_matrix release =
    let support = tested_versions release.version in
    support.uefi
    && not (is_empty support.uefi_archive_sha256)
    && equal_fold release.checksum support.uefi_archive_sha256

-- What `Prepare` checks of firmware and release in front of the download
unfoldable pub check_release : Release → Bytes → Result ClientError (Unit {0})
check_release release firmware = do
  reject_if (not (bytes_eq firmware (codes "BIOS")) && not (bytes_eq firmware (codes "UEFI")))
      unsupported_firmware
  reject_if (is_empty release.version || is_empty release.image_url || is_empty release.checksum)
      incomplete_release
  reject_if
      (bytes_eq firmware (codes "UEFI")
        && (not release.uefi_boot || not (is_in_boot_matrix release)))
      untested_uefi

-- An entry of the archive: its name, the size that it announces, and what can be read of it.
pub record ZipEntry : Type 0 where
  pub name : Bytes
  pub uncompressed_size : ℕ
  pub opens : Bool
  pub content : Bytes
  pub content_ok : Bool

-- The file that the image is written to
pub record ImageFile : Type 0 where
  pub create_ok : Bool
  pub room : Option ℕ
  pub sync_ok : Bool
  pub close_ok : Bool

-- `filepath.Ext`: from the last dot of the last element on
abbrev extension_from : Bytes → Option Bytes
extension_from [] = none
extension_from (c ∷ s) =
    let later = extension_from s in
    elim later [ some found ↦ some found | none ↦ if c == b'.' then some (c ∷ s) else none ]

abbrev extension : Bytes → Bytes
extension name = elim (extension_from (base name)) [ none ↦ [] | some found ↦ found ]

abbrev pub is_raw_image : ZipEntry → Bool
is_raw_image e =
    equal_fold (extension e.name) (codes ".img")
    && not (contains (codes "..") e.name)
    && bytes_eq (base e.name) e.name

abbrev the_image : List ZipEntry → Result ClientError ZipEntry
the_image [] = err no_image
the_image (e ∷ []) = ok e
the_image (e ∷ f ∷ rest) = err several_images

abbrev raw_images : List ZipEntry → List ZipEntry
raw_images [] = []
raw_images (e ∷ rest) =
    let images = raw_images rest in if is_raw_image e then e ∷ images else images

abbrev pub max_image_bytes : ℕ
max_image_bytes = 4 * 1024 * 1024 * 1024

abbrev taken : Option ℕ → Bytes → Bytes
taken none s = s
taken (some n) s = take n s

-- The bytes below the limit, as far as the file takes them
abbrev pub extracted : ImageFile → ZipEntry → Bytes
extracted file e = taken file.room (take (max_image_bytes + 1) e.content)

abbrev extract_ok : ImageFile → ZipEntry → Bool
extract_ok file e =
    length (extracted file e) == length (take (max_image_bytes + 1) e.content)
    && (e.content_ok || leb (max_image_bytes + 1) (length e.content))

abbrev check_extract : ImageFile → ZipEntry → Result ClientError Bytes
check_extract file e = do
  reject_if (ltb max_image_bytes e.uncompressed_size) image_too_large
  reject_if (not e.opens) open_failed
  reject_if (not file.create_ok) create_failed
  reject_if (not (extract_ok file e)) copy_failed
  reject_if (not file.sync_ok) sync_failed
  reject_if (not file.close_ok) close_failed
  reject_if (ltb max_image_bytes (length (extracted file e))) image_too_large
  reject_if (not (length (extracted file e) == e.uncompressed_size)) truncated
  ok (extracted file e)

unfoldable pub extract_image : Option (List ZipEntry) → ImageFile → Result ClientError Bytes
extract_image archive file = do
  entries ← from_option bad_zip archive
  image ← the_image (raw_images entries)
  check_extract file image
