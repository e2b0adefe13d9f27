-- ===== src/Pte.antt =====
-- src/memory/pagetable/pte.rs
mod Defs
pub mod Bits
pub mod Entry
unfoldable pub use Defs.*
