-- ===== src/UserSpace.antt =====
-- src/process/user_space: the areas of an address space, and the stack of a new program.
pub mod Perm
pub mod Area
pub mod Stack
pub mod Pushes
pub mod Arrays
pub mod Startup
pub mod Manager
pub mod Split
pub mod Fault
pub mod Place
pub mod Map
pub mod Heap
pub mod Remap
