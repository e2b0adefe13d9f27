-- ===== src/VfsPath.antt =====
-- src/fs/new_vfs/path.rs: normalised paths.
mod Defs
pub mod Text
pub mod Normal
unfoldable pub use Defs.*
