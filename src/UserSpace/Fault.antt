-- ===== src/UserSpace/Fault.antt =====
-- UserArea::page_fault, UserAreaManager::page_fault, unmap_range and release_range,
-- src/process/user_space/user_area.rs, on the pages of an address space. The page table is
-- the map from page numbers to valid entries.
mod Defs
pub mod Cow
pub mod Tables
pub mod Release
pub mod Unmap
pub mod Lazy
unfoldable pub use Defs.*
