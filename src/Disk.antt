-- ===== src/Disk.antt =====
-- src/fs/disk.rs, src/fs/partition.rs
mod Defs
pub mod Bytes
pub mod Whole
unfoldable pub use Defs.*
