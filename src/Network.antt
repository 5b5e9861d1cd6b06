-- ===== src/Network.antt =====
-- internal/network: the network plan that the installed system gets.
pub mod Plan
pub mod Address
pub mod Validate
pub mod Routes
pub mod Host
pub mod Sources
pub mod Addresses
pub mod Detect
pub mod Script
pub mod Dhcp
mod Tests
mod DetectTests
