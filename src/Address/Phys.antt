-- ===== src/Address/Phys.antt =====
-- src/memory/address/phys.rs: PhysAddr, PhysAddr4K and PhysPageNum.
use mankoros.Base.{
  ℕ, ◌/◌, ◌%◌, ◌<◌, ◌≡◌, Bool, ◌&&◌, ltb, ◌==◌, Run, ok, ◌>>=◌, ◌>>◌, assert, add_usize, sub_usize,
  mul_usize, usize_mod, arith,
}
use mankoros.Address.Page.{page_size, page_low, page_high}

-- PhysAddr4K
unfoldable pub is_valid : ℕ → Bool
is_valid b = ltb b 0xffff_ffff_0000_0000 && page_low b == 0

unfoldable pub from_bits : ℕ → Run ℕ
from_bits bits = assert (page_low bits == 0) >> ok bits

unfoldable pub page_num : ℕ → ℕ
page_num a = a / page_size

unfoldable pub next_page : ℕ → Run ℕ
next_page a = add_usize a page_size

unfoldable pub prev_page : ℕ → Run ℕ
prev_page a = sub_usize a page_size

-- PhysAddr
unfoldable pub page_num_down : ℕ → ℕ
page_num_down a = a / page_size

unfoldable pub page_num_up : ℕ → Run ℕ
page_num_up a = add_usize (page_num_down a) 1

unfoldable pub floor : ℕ → ℕ
floor a = page_high a

unfoldable pub ceil : ℕ → Run ℕ
ceil a = do b ← add_usize a page_size; c ← sub_usize b 1; ok (page_high c)

unfoldable pub assert_4k : ℕ → Run ℕ
unfolding from_bits
assert_4k a = from_bits a

unfoldable pub page_offset : ℕ → ℕ
page_offset a = page_low a

-- PhysPageNum
unfoldable pub addr : ℕ → Run ℕ
addr n = mul_usize n page_size

-- A page-aligned address below 2^64 comes back from its page number.
pub addr-page_num : (a : ℕ) → a < usize_mod → a % page_size ≡ 0 → addr (page_num a) ≡ ok a
unfolding addr page_num mul_usize
addr-page_num a h e = ground arith
