-- ===== src/Address.antt =====
-- src/memory/address: physical and virtual addresses, page-aligned addresses and page numbers, as
-- numbers below 2^64. `x & PAGE_MASK` is the remainder by the page size, and `x & !PAGE_MASK` is
-- `x` less that remainder.
mod Page
pub mod Virt
pub mod Phys
pub mod Kernel
pub mod Vpn
unfoldable pub use Page.*
