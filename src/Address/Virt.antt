-- ===== src/Address/Virt.antt =====
-- src/memory/address/virt.rs: VirtAddr, VirtAddr4K and VirtPageNum.
use mankoros.Base.{
  ℕ, ◌+◌, ◌-◌, ◌*◌, ◌/◌, ◌%◌, ◌≤◌, ◌<◌, ◌≡◌, ◌==◌, Run, ok, ◌>>=◌, ◌>>◌, assert, add_usize,
  sub_usize, mul_usize, add_usize-ok, sub_usize-ok, usize_mod, Returns, Returns-of, arith,
}
use mankoros.Address.Page.{page_size, page_low, page_high}

-- VirtAddr4K
unfoldable pub from_bits : ℕ → Run ℕ
from_bits bits = assert (page_low bits == 0) >> ok bits

unfoldable pub page_num : ℕ → ℕ
page_num a = a / page_size

unfoldable pub next_page : ℕ → Run ℕ
next_page a = add_usize a page_size

unfoldable pub prev_page : ℕ → Run ℕ
prev_page a = sub_usize a page_size

-- VirtAddr
unfoldable pub page_num_down : ℕ → ℕ
page_num_down a = a / page_size

unfoldable pub page_num_up : ℕ → Run ℕ
page_num_up a = add_usize (page_num_down a) 1

unfoldable pub round_down : ℕ → ℕ
round_down a = page_high a

unfoldable pub round_up : ℕ → Run ℕ
round_up a = add_usize (page_high a) page_size

unfoldable pub floor : ℕ → ℕ
unfolding round_down
floor a = round_down a

unfoldable pub ceil : ℕ → Run ℕ
ceil a = do b ← add_usize a page_size; c ← sub_usize b 1; ok (page_high c)

unfoldable pub assert_4k : ℕ → Run ℕ
unfolding from_bits
assert_4k a = from_bits a

unfoldable pub page_offset : ℕ → ℕ
page_offset a = page_low a

-- VirtPageNum
unfoldable pub addr : ℕ → Run ℕ
addr n = mul_usize n page_size

-- An address is its page and its offset, and the page's address is the address rounded down.
pub page_split :
    (a : ℕ) → (round_down a + page_offset a ≡ a) × (page_num_down a * page_size ≡ round_down a)
unfolding round_down page_offset page_num_down
page_split a = omega arith

-- Where the address and a page are below 2^64, `ceil` does not panic, and gives the least page-aligned
-- address that is not below.
pub ceil_correct :
    (a : ℕ)
    → a + page_size < usize_mod
    → Returns (λ b. (a ≤ b) × (b < a + page_size) × (b % page_size ≡ 0)) (ceil a)
unfolding ceil
ceil_correct a h =
    Returns-of {a = page_high (a + page_size - 1)}
      (ground (arith, add_usize-ok a page_size h, sub_usize-ok (a + page_size) 1 (omega arith)))
      (omega arith)

-- `round_up` is the first page-aligned address that is above: an aligned address goes to the next
-- page.
pub round_up_correct :
    (a : ℕ)
    → a + page_size < usize_mod
    → Returns (λ b. (a < b) × (b ≤ a + page_size) × (b % page_size ≡ 0)) (round_up a)
unfolding round_up
round_up_correct a h = Returns-of (add_usize-ok (page_high a) page_size (omega arith)) (omega arith)
