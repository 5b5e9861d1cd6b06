-- ===== src/Install.antt =====
-- internal/install: what happens once a plan is authorised.
pub mod Write
pub mod Cmdline
pub mod Calls
pub mod Boot
pub mod Resources
pub mod Initramfs
pub mod StagePlan
pub mod Stage
pub mod Writer
pub mod Manifest
mod Tests
mod WriterTests
mod BootTests
mod StageTests
