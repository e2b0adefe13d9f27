-- ===== src/Pte/Defs.antt =====
-- src/memory/pagetable/pte.rs: PTEFlags and PageTableEntry. A set of flags is the record of its
-- flags; an entry is its 64 bits. `|` and `& !` with a single bit are written by the test of that
-- bit, and `|` of parts that share no bit is their sum.
use mankoros.Base.{
  ℕ, ◌+◌, ◌-◌, ◌*◌, ◌/◌, ◌%◌, ◌^◌, Bool, true, false, not, ◌&&◌, ◌||◌, ◌==◌, if◌then◌else◌, Run, ok,
  ◌>>◌, assert,
}

pub record PteFlags : Type 0 where
  pub v : Bool
  pub r : Bool
  pub w : Bool
  pub x : Bool
  pub u : Bool
  pub g : Bool
  pub a : Bool
  pub d : Bool
  pub shared : Bool
  pub rsw2 : Bool

abbrev pub no_flags : PteFlags
no_flags = record {
  v = false;
  r = false;
  w = false;
  x = false;
  u = false;
  g = false;
  a = false;
  d = false;
  shared = false;
  rsw2 = false;
}

unfoldable pub rwx : PteFlags
rwx = record no_flags { r = true; w = true; x = true; a = true; d = true }

unfoldable pub rw : PteFlags
rw = record no_flags { r = true; w = true; a = true; d = true }

-- the numbers 0 and 1
abbrev pub digit : Bool → ℕ
digit b = if b then 1 else 0

-- `perm.bits()`
unfoldable pub bits_of : PteFlags → ℕ
bits_of f =
    digit f.v
    + digit f.r * 2
    + digit f.w * 4
    + digit f.x * 8
    + digit f.u * 16
    + digit f.g * 32
    + digit f.a * 64
    + digit f.d * 128
    + digit f.shared * 256
    + digit f.rsw2 * 512

-- `bits & (1 << k) != 0`
abbrev pub has : ℕ → ℕ → Bool
has bits k = bits / 2 ^ k % 2 == 1

-- `bits |= 1 << k` and `bits &= !(1 << k)`
abbrev pub set_bit : ℕ → ℕ → ℕ
set_bit bits k = if has bits k then bits else bits + 2 ^ k

abbrev pub clear_bit : ℕ → ℕ → ℕ
clear_bit bits k = if has bits k then bits - 2 ^ k else bits

-- PTE_PPN_MASK_SV39 keeps the bits from 10 to 53
abbrev pub ppn_field : ℕ → ℕ
ppn_field bits = bits % 2 ^ 54 - bits % 2 ^ 10

unfoldable pub new : ℕ → PteFlags → ℕ
unfolding bits_of
new paddr perm = ppn_field (paddr / 4) + bits_of perm

abbrev pub empty : ℕ
empty = 0

unfoldable pub clear : ℕ → ℕ
clear bits = empty

unfoldable pub ppn : ℕ → ℕ
ppn bits = ppn_field bits / 2 ^ 10

-- the page number has 44 bits, so the product does not overflow
unfoldable pub paddr : ℕ → ℕ
unfolding ppn
paddr bits = ppn bits * 2 ^ 12

unfoldable pub flags : ℕ → PteFlags
flags bits = record {
  v = has bits 0;
  r = has bits 1;
  w = has bits 2;
  x = has bits 3;
  u = has bits 4;
  g = has bits 5;
  a = has bits 6;
  d = has bits 7;
  shared = has bits 8;
  rsw2 = has bits 9;
}

unfoldable pub is_valid : ℕ → Bool
unfolding flags
is_valid bits = (flags bits).v

-- some of R, W, X and U
abbrev pub maps_page : PteFlags → Bool
maps_page f = f.r || f.w || f.x || f.u

unfoldable pub is_directory : ℕ → Bool
unfolding flags is_valid
is_directory bits = is_valid bits && not (maps_page (flags bits))

unfoldable pub is_leaf : ℕ → Bool
unfolding flags is_valid
is_leaf bits = is_valid bits && maps_page (flags bits)

unfoldable pub readable : ℕ → Bool
unfolding flags
readable bits = (flags bits).r

unfoldable pub writable : ℕ → Bool
unfolding flags
writable bits = (flags bits).w

unfoldable pub executable : ℕ → Bool
unfolding flags
executable bits = (flags bits).x

unfoldable pub is_user : ℕ → Bool
unfolding flags
is_user bits = (flags bits).u

unfoldable pub shared : ℕ → Bool
unfolding flags
shared bits = (flags bits).shared

unfoldable pub rsw_8 : ℕ → Bool
rsw_8 bits = has bits 8

unfoldable pub rsw_9 : ℕ → Bool
rsw_9 bits = has bits 9

unfoldable pub reserved_bits : ℕ → ℕ
reserved_bits bits = bits - bits % 2 ^ 54

unfoldable pub set_writable : ℕ → ℕ
set_writable bits = set_bit bits 2

unfoldable pub clear_writable : ℕ → ℕ
clear_writable bits = clear_bit bits 2

unfoldable pub set_user : ℕ → ℕ
set_user bits = set_bit bits 4

unfoldable pub clear_user : ℕ → ℕ
clear_user bits = clear_bit bits 4

unfoldable pub set_shared : ℕ → ℕ
set_shared bits = set_bit bits 8

-- `!` is of the 16 bits of the flag, so that the mask also clears the bits from 16 on
unfoldable pub clear_shared : ℕ → ℕ
clear_shared bits = clear_bit (bits % 2 ^ 16) 8

-- R, W and X are the bits 1 to 3
unfoldable pub set_rwx : ℕ → PteFlags → ℕ
set_rwx bits flag =
    bits - bits / 2 % 8 * 2 + (digit flag.r * 2 + digit flag.w * 4 + digit flag.x * 8)

unfoldable pub become_shared : ℕ → Bool → Run ℕ
unfolding shared set_shared clear_writable
become_shared bits shared_writable = do
  assert (not (shared bits))
  let marked = set_shared bits
  ok (if shared_writable then marked else clear_writable marked)

unfoldable pub become_unique : ℕ → Bool → Run ℕ
unfolding shared clear_shared set_writable
become_unique bits unique_writable = do
  assert (shared bits)
  let alone = clear_shared bits
  ok (if unique_writable then set_writable alone else alone)

-- `alloc` and `map_frame` differ in where the frame comes from
unfoldable pub map_frame : ℕ → PteFlags → ℕ → Run ℕ
unfolding is_valid new
map_frame bits perm pa =
    assert (not (is_valid bits)) >> ok (new pa (record perm { d = true; a = true; v = true }))

unfoldable pub alloc_non_leaf : ℕ → PteFlags → ℕ → Run ℕ
unfolding is_valid new
alloc_non_leaf bits perm pa = do
  assert (not (is_valid bits))
  assert (not (perm.u || perm.r || perm.w))
  ok (new pa (record perm { v = true }))
