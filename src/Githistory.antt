-- ===== src/Githistory.antt =====
-- internal/githistory: the replay of the first registry's git history as proposals. What git reports
-- of a commit (the changed paths with their status and blobs) is an argument.
pub mod Identity
pub mod Classify
pub mod Resources
pub mod Decompose
