-- ===== src/Pipe.antt =====
-- src/fs/npipe.rs
mod Defs
pub mod Transfer
pub mod Stream
unfoldable pub use Defs.*
