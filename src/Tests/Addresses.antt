-- ===== src/Tests/Addresses.antt =====
-- The theorems on addresses.
