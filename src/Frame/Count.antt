-- ===== src/Frame/Count.antt =====
-- The counts and the allocator agree: a frame is spare exactly when nothing refers to it.
use mankoros.Base.{
  ℕ, ◌+◌, ◌*◌, ◌/◌, ◌%◌, ◌^◌, ◌≤◌, ◌<◌, ◌≡◌, ◌≢◌, true, some, ◌==◌, ok, panic, arith,
}
use mankoros.Address.{page_size}
use mankoros.Address.Phys.{page_num}
use mankoros.Frame.Defs.{
  Frames, get_ref_cnt_ptr, get_ref_cnt, is_free, increase, decrease, dealloc_frame,
  decrease_and_try_dealloc, decrease_and_must_dealloc, alloc_frame,
}

abbrev pub IsCounted : Frames → Type 0
IsCounted s = (p : ℕ) → (s.spare p ≡ (s.ref_cnt p == 0)) × (s.ref_cnt p < 2 ^ 32)

-- what the kernel does with a frame: it allocates a spare one, refers once more to one in use, gives
-- up a reference that is not the last one, or the last one and then the frame itself, as the drop of a page
-- table does, or gives up any reference of a frame in use
pub data Step : Frames → Frames → Type 0 where
  allocated :
      {s t : Frames} (p : ℕ)
      → s.spare p ≡ true
      → alloc_frame s (some (p * page_size)) ≡ ok (some (p * page_size), t)
      → Step s t
  referenced :
      {s t : Frames} (p : ℕ)
      → 0 < s.ref_cnt p
      → s.ref_cnt p + 1 < 2 ^ 32
      → increase s p ≡ ok t
      → Step s t
  left_shared : {s t : Frames} (p : ℕ) → s.ref_cnt p ≢ 1 → decrease s p ≡ ok t → Step s t
  dropped :
      {s t u : Frames} (p : ℕ)
      → s.ref_cnt p ≡ 1
      → decrease s p ≡ ok t
      → dealloc_frame t (p * page_size) ≡ ok u
      → Step s u
  released :
      {s t : Frames} (p : ℕ) → 0 < s.ref_cnt p → decrease_and_try_dealloc s p ≡ ok t → Step s t
  must_be_released : {s t : Frames} (p : ℕ) → decrease_and_must_dealloc s p ≡ ok t → Step s t

pub data Steps : Frames → Frames → Type 0 where
  stay : {s : Frames} → Steps s s
  step : {s t u : Frames} → Step s t → Steps t u → Steps s u

-- The allocator numbers the frames from the start of the memory, and the counters are indexed from
-- address 0: where the frame handed out lies past the size of the memory, `alloc_frame` panics.
pub alloc_frame-panics_past_size :
    (s : Frames) (phymem_start id : ℕ)
    → phymem_start % page_size ≡ 0
    → id < s.max_memory / page_size
    → s.max_memory ≤ phymem_start + id * page_size
    → alloc_frame s (some (id * page_size + phymem_start)) ≡ panic
unfolding alloc_frame is_free get_ref_cnt get_ref_cnt_ptr page_num
alloc_frame-panics_past_size s phymem_start id a h past = ground arith
