-- ===== src/Mikrotik.antt =====
-- internal/mikrotik: the CHR image, from its partition tables to the prepared boot partition.
pub mod Memory
pub mod Download
pub mod Client
pub mod Mbr
pub mod Gpt
pub mod Loader
pub mod FatReader
pub mod FatCheck
pub mod FatWriter
pub mod Uefi
mod Tests
mod DownloadTests
mod ClientTests
