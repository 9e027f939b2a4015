-- ===== src/Build/Job/Whole.antt =====
-- build/job.rs as cli/build.rs uses it: `JobQueue::new`, and then `exec` on what it has made.
