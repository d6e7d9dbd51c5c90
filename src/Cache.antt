-- ===== src/Cache.antt =====
-- internal/cache/store.go: a cache of one repository in a directory. Each entry is a metadata file
-- and a body file; the two are committed by renames.
pub mod Files
pub mod Naming
pub mod Store
pub mod Writer
pub mod Bounds
pub mod Put
pub mod Sweep
pub mod Commit
pub mod Collect
pub mod Open
pub mod Verified
pub mod Keeping
pub mod Removing
mod Tests
