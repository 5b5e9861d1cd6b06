-- ===== src/Disk.antt =====
-- internal/disk: the identity of a disk and how the writer finds the authorized disk again.
pub mod Fingerprint
pub mod Hex
pub mod Vpd
pub mod Graph
pub mod Sysfs
pub mod Staging
pub mod Detect
mod Tests
mod DetectTests
