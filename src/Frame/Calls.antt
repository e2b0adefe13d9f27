-- ===== src/Frame/Calls.antt =====
-- What the operations on the counts of a frame give, src/memory/frame_ref_cnt.rs.
use mankoros.Base.{
  ℕ, ◌+◌, ◌-◌, ◌*◌, ◌/◌, ◌^◌, ◌<◌, ◌≡◌, false, some, ◌==◌, if◌then◌else◌, update, ok, panic, arith,
  mul_usize,
}
use mankoros.Address.{page_size}
use mankoros.Address.Phys.{addr, is_valid, page_num}
use mankoros.Frame.Defs.{
  Frames, get_ref_cnt_ptr, get_ref_cnt, add_ref_cnt_one, sub_ref_cnt_one, is_free, increase,
  decrease, dealloc_frame, decrease_and_try_dealloc, decrease_and_must_dealloc, alloc_frame,
}

-- a frame that has a counter
abbrev pub HasCounter : Frames → ℕ → Type 0
HasCounter s p = (p < s.max_memory / page_size) × (p * page_size < 0xffff_ffff_0000_0000)

-- the frames where only the count of `p` changes, to `n`
abbrev pub counts : Frames → ℕ → ℕ → Frames
counts s p n = record s { ref_cnt = update s.ref_cnt p n }

-- the frames where `p` has the count `n` and is spare if that is 0
abbrev pub settles : Frames → ℕ → ℕ → Frames
settles s p n = record s { ref_cnt = update s.ref_cnt p n; spare = update s.spare p (n == 0) }

pub ptr_ok : (s : Frames) (p : ℕ) → HasCounter s p → get_ref_cnt_ptr s p ≡ ok tt
unfolding get_ref_cnt_ptr addr is_valid mul_usize
ptr_ok s p h = ground arith

-- A frame with a counter that is shared loses one reference, and stays with its owners; of a frame with
-- no reference `decrease` panics.
pub decrease_correct :
    (s : Frames) (p : ℕ)
    → HasCounter s p
    → s.ref_cnt p < 2 ^ 32
    → (s.ref_cnt p ≡ 0 → decrease s p ≡ panic)
      × (0 < s.ref_cnt p → decrease s p ≡ ok (counts s p (s.ref_cnt p - 1)))
unfolding decrease get_ref_cnt sub_ref_cnt_one
decrease_correct s p h b = (λ e. ground (arith, ptr_ok s p h), λ e. ground (arith, ptr_ok s p h))

pub increase-counts :
    (s : Frames) (p : ℕ)
    → HasCounter s p
    → s.ref_cnt p + 1 < 2 ^ 32
    → increase s p ≡ ok (counts s p (s.ref_cnt p + 1))
unfolding increase add_ref_cnt_one
increase-counts s p h b = ground (arith, ptr_ok s p h)

pub sub-counts :
    (s : Frames) (p : ℕ)
    → HasCounter s p
    → 0 < s.ref_cnt p
    → s.ref_cnt p < 2 ^ 32
    → sub_ref_cnt_one s p ≡ ok (s.ref_cnt p, counts s p (s.ref_cnt p - 1))
unfolding sub_ref_cnt_one
sub-counts s p h e b = ground (arith, ptr_ok s p h)

pub addr_ok : (s : Frames) (p : ℕ) → HasCounter s p → addr p ≡ ok (p * page_size)
unfolding addr mul_usize
addr_ok s p h = ground arith

pub dealloc-counts :
    (s : Frames) (p : ℕ)
    → HasCounter s p
    → s.ref_cnt p ≡ 1
    → dealloc_frame (counts s p 0) (p * page_size) ≡ ok (settles s p 0)
unfolding dealloc_frame is_free get_ref_cnt page_num is_valid
dealloc-counts s p h e = ground (arith, ptr_ok (counts s p 0) p h)

-- Giving up a reference to a frame with a counter and with at least one reference does not panic:
-- the count goes down by one, and the frame goes back to the allocator exactly when it was the
-- last.
pub try_dealloc_correct :
    (s : Frames) (p : ℕ)
    → HasCounter s p
    → 0 < s.ref_cnt p
    → s.ref_cnt p < 2 ^ 32
    → decrease_and_try_dealloc s p
      ≡ ok (if s.ref_cnt p == 1 then settles s p 0 else counts s p (s.ref_cnt p - 1))
unfolding decrease_and_try_dealloc
try_dealloc_correct s p h e b =
    ground (arith, sub-counts s p h e b, addr_ok s p h, dealloc-counts s p h)

-- `decrease_and_must_dealloc` gives a frame that has one reference back to the allocator, and panics at
-- one that has more.
pub must_dealloc_correct :
    (s : Frames) (p : ℕ)
    → HasCounter s p
    → 0 < s.ref_cnt p
    → s.ref_cnt p < 2 ^ 32
    → decrease_and_must_dealloc s p ≡ (if s.ref_cnt p == 1 then ok (settles s p 0) else panic)
unfolding decrease_and_must_dealloc
must_dealloc_correct s p h e b =
    ground (arith, sub-counts s p h e b, addr_ok s p h, dealloc-counts s p h)

-- The allocator hands out a frame without references: it has one reference afterwards.
pub alloc-settles :
    (s : Frames) (p : ℕ)
    → HasCounter s p
    → s.ref_cnt p ≡ 0
    → alloc_frame s (some (p * page_size)) ≡ ok (some (p * page_size), settles s p 1)
unfolding alloc_frame is_free get_ref_cnt page_num is_valid
alloc-settles s p h e =
    ground (arith, ptr_ok s p h, increase-counts (record s { spare = update s.spare p false }) p h)
