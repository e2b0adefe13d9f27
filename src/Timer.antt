-- ===== src/Timer.antt =====
-- src/timer: times of seconds and a fraction, the times that a process has run, and the queue of sleepers.
pub mod Sleep
pub mod Wake
pub mod Timeout
mod Defs
pub mod Sum
unfoldable pub use Defs.*
