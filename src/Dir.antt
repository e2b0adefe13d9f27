-- ===== src/Dir.antt =====
-- src/fs/nfat32/dir.rs: the directories of FAT32.
mod Defs
pub mod Window
pub mod Name
pub mod Short
pub mod Scan
pub mod Right
pub mod Middle
unfoldable pub use Defs.*
