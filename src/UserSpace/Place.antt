-- ===== src/UserSpace/Place.antt =====
-- The closures that the manager gives to `find_free_range`.
use mankoros.Base.{ℕ, ◌+◌, ◌-◌, ◌<◌, ◌≡◌, ok, usize_mod, add_usize, sub_usize, arith}
use mankoros.Address.{page_size, page_high}
use mankoros.Address.Virt
use mankoros.RangeMap.FindFree.{Grows}
use mankoros.RangeMap.FindFree.Total.{IsTotal}
use mankoros.UserSpace.Manager.{stack_offset, mmap_offset}

mmap_is :
    (a n : ℕ)
    → a + n + page_size < usize_mod
    → mmap_offset a n ≡ ok (page_high (a + n + page_size - 1))
unfolding mmap_offset Virt.ceil add_usize sub_usize
mmap_is a n h = ground arith

pub mmap-Grows : Grows mmap_offset
unfolding mmap_offset Virt.ceil add_usize sub_usize
mmap-Grows a n t e = ground arith

pub mmap-IsTotal :
    (size bound : ℕ) → bound + size + page_size < usize_mod → IsTotal mmap_offset size bound
unfolding mmap_offset Virt.ceil add_usize sub_usize
mmap-IsTotal size bound h = (
  λ a p. (page_high (a + size + page_size - 1), mmap_is a size (omega arith)),
  λ a b s t p e f. ground arith,
)

stack_is :
    (a n : ℕ)
    → a + n + page_size < usize_mod
    → stack_offset a n ≡ ok (page_high (a + n) + page_size)
unfolding stack_offset Virt.round_up add_usize
stack_is a n h = ground arith

pub stack-Grows : Grows stack_offset
unfolding stack_offset Virt.round_up add_usize
stack-Grows a n t e = ground arith

pub stack-IsTotal :
    (size bound : ℕ) → bound + size + page_size < usize_mod → IsTotal stack_offset size bound
unfolding stack_offset Virt.round_up add_usize
stack-IsTotal size bound h = (
  λ a p. (page_high (a + size) + page_size, stack_is a size (omega arith)),
  λ a b s t p e f. ground arith,
)

-- the end of a stack lies above its start, whatever the size
pub stack_up : (a n t : ℕ) → stack_offset a n ≡ ok t → a < t
unfolding stack_offset Virt.round_up add_usize
stack_up a n t e = ground arith
