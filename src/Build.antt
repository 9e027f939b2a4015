-- ===== src/Build.antt =====
-- build/: what is built of a package, and the queue of the packages to build.
pub mod Target
pub mod Job
