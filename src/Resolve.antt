-- ===== src/Resolve.antt =====
-- The dependency resolver, lib/resolve.
pub mod Assignment
pub mod Incompat
pub mod State
pub mod Satisfier
pub mod Propagate
pub mod Backtrack
pub mod Conflict
pub mod Choose
pub mod Solve
pub mod Tree
pub mod Facts
pub mod Unwind
pub mod Replay
pub mod Frames
pub mod Preserve
pub mod Agree
pub mod Links
pub mod Sound
pub mod Steps
