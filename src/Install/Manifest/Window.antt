-- ===== src/Install/Manifest/Window.antt =====
-- On internal/install/manifest.go: the manifests that the writer accepts.
use mikrotik_chr_script.Common.{ℕ, ◌+◌, ◌≤◌, ◌<◌, ◌≡◌, some, arith}
use mikrotik_chr_script.Common.Outcome.{ok}
use mikrotik_chr_script.Install.Manifest.{
  Manifest, manifest_max_age, manifest_future_leeway, max_rtc_offset, timestamp_within_window,
  validate_timestamp, measured_rtc_offset,
}

-- A clock, at least a day after the origin, that a manifest passes at is at most two days after its
-- creation and at most a day and five minutes before it, whatever offset the manifest holds.
pub validate_timestamp_bounds :
    (m : Manifest) (clock : ℕ)
    → max_rtc_offset ≤ clock
    → validate_timestamp m clock ≡ ok tt
    → (clock ≤ m.created_at + manifest_max_age + max_rtc_offset)
      × (m.created_at ≤ clock + manifest_future_leeway + max_rtc_offset)
unfolding validate_timestamp timestamp_within_window
validate_timestamp_bounds m clock day e = ground arith

-- A manifest whose offset was measured at its creation, on a host whose hardware clock is off by at
-- most a day, passes at every hardware time from then on until a day later.
pub validate_timestamp-measured_rtc_offset :
    (m : Manifest) (now rtc age : ℕ)
    → 0 < now
    → m.created_at ≡ now
    → m.rtc_offset ≡ measured_rtc_offset now (some rtc)
    → now ≤ rtc + max_rtc_offset
    → rtc ≤ now + max_rtc_offset
    → age ≤ manifest_max_age
    → validate_timestamp m (rtc + age) ≡ ok tt
unfolding validate_timestamp timestamp_within_window measured_rtc_offset
validate_timestamp-measured_rtc_offset m now rtc age some_time created offset behind ahead young =
    ground arith
