-- ===== src/Java.antt =====
-- The buildpack itself: which Java version and vendor it takes, and what it contributes.
pub mod Sdkman
pub mod Version
pub mod Vendors
pub mod Jlink
pub mod Plan
pub mod Runtime
pub mod Listing
pub mod Keystore
pub mod Manifest
pub mod Certificates
pub mod Layers
pub mod Nik
pub mod Generate
pub mod Programs
mod Tests
