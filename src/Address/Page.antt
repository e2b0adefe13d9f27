-- ===== src/Address/Page.antt =====
-- The page size, from src/consts/mod.rs.
use mankoros.Base.{ℕ, ◌-◌, ◌%◌, ◌^◌}

abbrev pub page_size : ℕ
page_size = 2 ^ 12

-- `bits & PAGE_MASK` and `bits & !PAGE_MASK`
abbrev pub page_low : ℕ → ℕ
page_low bits = bits % page_size

abbrev pub page_high : ℕ → ℕ
page_high bits = bits - bits % page_size
