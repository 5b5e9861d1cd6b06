-- ===== src/Disk/Vpd/Canonical.antt =====
-- On internal/disk/fingerprint.go: the texts that canonicalWWN gives.
use mikrotik_chr_script.Common.Bytes.{Bytes}
