-- ===== src/Process.antt =====
-- src/process/lproc.rs: what a process has.
pub mod Fds
pub mod Pool
pub mod Table
pub mod Dup
