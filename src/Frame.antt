-- ===== src/Frame.antt =====
-- src/memory/frame_ref_cnt.rs and src/memory/frame.rs: the reference counts of the page frames.
mod Defs
pub mod Calls
pub mod Count
unfoldable pub use Defs.*
