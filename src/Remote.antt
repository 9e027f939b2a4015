-- ===== src/Remote.antt =====
-- remote/: where packages come from.
pub mod Url
pub mod DirectRes
pub mod IndexRes
pub mod Resolution
pub mod Index
