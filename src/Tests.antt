-- ===== src/Tests.antt =====
-- The theorems at concrete inputs.
mod Maps
mod Spaces
mod Pages
mod Addresses
mod Files
mod Systems
mod Programs
mod Directories
