-- ===== src/Git.antt =====
-- packages/git: worktrees, their names, and the names of branches (packages/utils).
pub mod Worktree
pub mod Detection
pub mod Names
pub mod Slugs
pub mod Listing
pub mod Porcelain
pub mod Operations
pub mod Creation
mod Tests
