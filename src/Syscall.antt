-- ===== src/Syscall.antt =====
-- src/syscall/memory.rs: the system calls on the areas of a process. The result is the value of the call and
-- the state that it leaves.
mod Defs
pub mod Mmap
unfoldable pub use Defs.*
