-- ===== src/RangeMap.antt =====
-- The interval map of user address spaces, src/process/user_space/range_map.rs.
mod Defs
pub mod View
pub mod Parts
pub mod Lookup
pub mod Free
pub mod FindFree
pub mod Insert
pub mod Clear
pub mod Remove
pub mod Split
pub mod Resize
pub mod Merge
unfoldable pub use Defs.*
