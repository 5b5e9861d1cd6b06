-- ===== src/Install/Manifest.antt =====
-- internal/install/manifest.go: what the staged writer is authorized to do, and when it may still do
-- it. Times are seconds from an origin that lies at least a day before every time that occurs; 0 is
-- the zero time; fractions of a second are left out. What network.Validate calls is its parameter `parsers`.
pub mod Window
use mikrotik_chr_script.Common.{
  ℕ, suc, ◌+◌, ◌-◌, ◌*◌, Bool, true, false, not, ◌&&◌, ◌||◌, ltb, leb, ◌==◌, if◌then◌else◌, length,
  List, [], ◌∷◌, Option, none, some,
}
use mikrotik_chr_script.Common.Bytes.{Bytes}
use mikrotik_chr_script.Common.Int.{ℤ, pos, negsuc, magnitude, move}
use mikrotik_chr_script.Common.Text.{is_empty}
use mikrotik_chr_script.Common.Outcome.{Result, ok, err, ◌>>=◌, ◌>>◌, reject_if, wrap_err}
use mikrotik_chr_script.Disk.Fingerprint.{Fingerprint}
use mikrotik_chr_script.Disk.Hex.{hex_decode}
use mikrotik_chr_script.Network.Plan.{NetworkPlan}
use mikrotik_chr_script.Network.Address.{Parsers}
use mikrotik_chr_script.Network.Validate.{PlanError, validate}

abbrev pub manifest_max_age : ℕ
manifest_max_age = 24 * 60 * 60

abbrev pub manifest_future_leeway : ℕ
manifest_future_leeway = 5 * 60

abbrev pub max_rtc_offset : ℕ
max_rtc_offset = 24 * 60 * 60

pub record Manifest : Type 0 where
  pub schema : ℕ
  pub created_at : ℕ
  pub rtc_offset : ℤ
  pub disk : Fingerprint
  pub image_path : Bytes
  pub image_sha256 : Bytes
  pub image_size : ℕ
  pub version : Bytes
  pub network : NetworkPlan

pub data ManifestError : Type 0 where
  unsupported_schema incomplete_fingerprint no_identity incomplete_image : ManifestError
  bad_checksum image_too_large no_release no_timestamp outside_window : ManifestError
  plan_error : PlanError → ManifestError

-- `age := current.Sub(createdAt)`, which lies between the two bounds.
unfoldable pub timestamp_within_window : ℕ → ℕ → Bool
timestamp_within_window created_at current =
    leb created_at (current + manifest_future_leeway) && leb current (created_at + manifest_max_age)

-- The offset that is applied: not 0, and at most a day either way.
abbrev pub offset_applies : ℤ → Bool
offset_applies offset = not (magnitude offset == 0) && leb (magnitude offset) max_rtc_offset

unfoldable pub validate_timestamp : Manifest → ℕ → Result ManifestError (Unit {0})
validate_timestamp m clock =
    if m.created_at == 0
    then err no_timestamp
    else if timestamp_within_window m.created_at clock
    then ok tt
    else if offset_applies m.rtc_offset
        && timestamp_within_window m.created_at (move clock m.rtc_offset)
    then ok tt
    else err outside_window

abbrev pub is_hex : Bytes → Bool
is_hex s = elim (hex_decode s) [ none ↦ false | some bytes ↦ true ]

unfoldable pub validate_manifest : Parsers → ℕ → Manifest → Result ManifestError (Unit {0})
validate_manifest parsers clock m = do
  reject_if (not (m.schema == 1)) unsupported_schema
  reject_if (is_empty m.disk.path || is_empty m.disk.kernel_name || m.disk.size_bytes == 0)
      incomplete_fingerprint
  reject_if (is_empty m.disk.wwn && is_empty m.disk.serial && is_empty m.disk.major_minor)
      no_identity
  reject_if (is_empty m.image_path || not (length m.image_sha256 == 64) || m.image_size == 0)
      incomplete_image
  reject_if (not (is_hex m.image_sha256)) bad_checksum
  reject_if (ltb m.disk.size_bytes m.image_size) image_too_large
  reject_if (is_empty m.version) no_release
  wrap_err plan_error (validate parsers m.network)
  validate_timestamp m clock

-- measuredRTCOffset, from the number that `rtc0/since_epoch` holds, both times in Unix seconds.
unfoldable pub measured_rtc_offset : ℕ → Option ℕ → ℤ
measured_rtc_offset now none = pos 0
measured_rtc_offset now (some rtc) =
    if leb rtc now
    then (if ltb max_rtc_offset (now - rtc) then pos 0 else pos (now - rtc))
    else if ltb max_rtc_offset (rtc - now)
    then pos 0
    else negsuc (rtc - now - 1)
