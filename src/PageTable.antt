-- ===== src/PageTable.antt =====
-- src/memory/pagetable/pagetable.rs: the page table, three levels of tables in the physical memory.
mod Defs
pub mod Tree
mod Grow
mod Walk
mod Create
mod Entry
mod Copy
pub mod CopyPage
pub mod Fork
pub mod Refine
unfoldable pub use Defs.*
unfoldable pub use Copy.*
