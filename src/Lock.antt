-- ===== src/Lock.antt =====
-- src/sync: the lock that puts its waiters to sleep, and the lock that spins.
pub mod Sleep
pub mod Sleepers
pub mod Progress
pub mod Spin
pub mod Spinners
