-- ===== src/Fat.antt =====
-- src/fs/nfat32: the FAT table, its chains of clusters, and sectors.
mod Defs
pub mod Alloc
pub mod Chain
pub mod Sector
pub mod Clusters
unfoldable pub use Defs.*
