-- ===== src/Mikrotik/ClientTests.antt =====
-- Answers of the server, on which the theorem on the release of internal/mikrotik/client.go is applied.
use mikrotik_chr_script.Common.{ℕ, true, false, ◌++◌, none, some, ◌≡◌, ◌↔◌, refl}
use mikrotik_chr_script.Common.Bytes.{Bytes}
use mikrotik_chr_script.Common.Text.{codes}
use mikrotik_chr_script.Common.Outcome.{ok}
use mikrotik_chr_script.Disk.Hex.{hex_decode}
use mikrotik_chr_script.Mikrotik.Client.{
  SmallRound, get_small_once, get_small_from, fetch_checksum, resolve_latest, released,
  check_release, Release,
}
use mikrotik_chr_script.Mikrotik.Client.Resolved.{resolve_latest-check_release}

abbrev answer_of : Bytes → ℕ → SmallRound
answer_of body n = record {
  request_ok = true;
  answer = some (record { status = 200; content_length = none; body = body; body_ok = true });
  done = false;
}

abbrev tested_checksum : Bytes
tested_checksum = codes "dbb8f1739da73a68e5167fcbc731a5ba3d50f9d9b195731b96f96fcc58904580"

abbrev tested_release : Release
tested_release = released (codes "https://download.example/") (codes "7.21.5") tested_checksum

resolve_latest_example :
    (check_release tested_release (codes "BIOS") ≡ ok tt)
    × ((check_release tested_release (codes "UEFI") ≡ ok tt) ↔ (tested_release.uefi_boot ≡ true))
resolve_latest_example =
    resolve_latest-check_release (codes "https://download.example/")
      (answer_of (codes "7.21.5 1752000000")) (answer_of (tested_checksum ++ codes "  chr.img.zip"))
      tested_release
      (unfold resolve_latest get_small_from get_small_once fetch_checksum hex_decode in refl)
