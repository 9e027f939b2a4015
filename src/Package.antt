-- ===== src/Package.antt =====
-- package/mod.rs: names, ids and descriptions of packages.
pub mod Name
pub mod Checksum
pub mod PackageId
pub mod Spec
pub mod Manifest
