-- ===== src/Frame/Defs.antt =====
-- The frames by their page numbers: the array of counts, and which frames the allocator holds. The
-- allocator is a bitmap of another crate; what it picks is an argument of `alloc_frame`.
use mankoros.Base.{
  ℕ, ◌+◌, ◌-◌, ◌/◌, ◌%◌, ◌^◌, Bool, true, false, not, Option, none, some, ◌==◌, ltb, leb,
  if◌then◌else◌, update, Run, ok, panic, ◌>>=◌, ◌>>◌, assert,
}
use mankoros.Address.{page_size}
use mankoros.Address.Phys.{addr, is_valid, page_num}

pub record Frames : Type 0 where
  pub max_memory : ℕ
  pub ref_cnt : ℕ → ℕ
  pub spare : ℕ → Bool

-- the checks before the access to the array
unfoldable pub get_ref_cnt_ptr : Frames → ℕ → Run (Unit {0})
get_ref_cnt_ptr s ppn = do
  assert (not (leb (s.max_memory / page_size) ppn))
  a ← addr ppn
  assert (is_valid a)

unfoldable pub get_ref_cnt : Frames → ℕ → Run ℕ
unfolding get_ref_cnt_ptr
get_ref_cnt s ppn = get_ref_cnt_ptr s ppn >> ok (s.ref_cnt ppn)

abbrev pub set_ref_cnt : Frames → ℕ → ℕ → Frames
set_ref_cnt s ppn n = record s { ref_cnt = update s.ref_cnt ppn n }

-- `add_ref_cnt` with 1 and with -1, on 32 bits: the previous value, and the frames after
unfoldable pub add_ref_cnt_one : Frames → ℕ → Run (ℕ × Frames)
unfolding get_ref_cnt_ptr
add_ref_cnt_one s ppn =
    get_ref_cnt_ptr s ppn >> ok (s.ref_cnt ppn, set_ref_cnt s ppn ((s.ref_cnt ppn + 1) % 2 ^ 32))

unfoldable pub sub_ref_cnt_one : Frames → ℕ → Run (ℕ × Frames)
unfolding get_ref_cnt_ptr
sub_ref_cnt_one s ppn =
    get_ref_cnt_ptr s ppn
    >> ok (s.ref_cnt ppn, set_ref_cnt s ppn ((s.ref_cnt ppn + 2 ^ 32 - 1) % 2 ^ 32))

unfoldable pub is_free : Frames → ℕ → Run Bool
unfolding get_ref_cnt
is_free s ppn = get_ref_cnt s ppn >>= λ n. ok (n == 0)

unfoldable pub is_unique : Frames → ℕ → Run Bool
unfolding get_ref_cnt
is_unique s ppn = get_ref_cnt s ppn >>= λ n. ok (n == 1)

unfoldable pub is_shared : Frames → ℕ → Run Bool
unfolding get_ref_cnt
is_shared s ppn = get_ref_cnt s ppn >>= λ n. ok (ltb 1 n)

unfoldable pub increase : Frames → ℕ → Run Frames
unfolding add_ref_cnt_one
increase s ppn = add_ref_cnt_one s ppn >>= λ (_, t). ok t

unfoldable pub decrease : Frames → ℕ → Run Frames
unfolding get_ref_cnt sub_ref_cnt_one
decrease s ppn = do
  n ← get_ref_cnt s ppn
  assert (not (n == 0))
  sub_ref_cnt_one s ppn >>= λ (_, t). ok t

-- `target` is the address of a frame
unfoldable pub dealloc_frame : Frames → ℕ → Run Frames
unfolding is_free page_num
dealloc_frame s target = do
  assert (is_valid target)
  free ← is_free s (page_num target)
  assert free
  ok (record s { spare = update s.spare (page_num target) true })

unfoldable pub decrease_and_try_dealloc : Frames → ℕ → Run Frames
unfolding sub_ref_cnt_one dealloc_frame
decrease_and_try_dealloc s ppn = sub_ref_cnt_one s ppn >>= λ (prev, t).
    let freed = addr ppn >>= dealloc_frame t in if prev == 1 then freed else ok t

unfoldable pub decrease_and_must_dealloc : Frames → ℕ → Run Frames
unfolding sub_ref_cnt_one dealloc_frame
decrease_and_must_dealloc s ppn = sub_ref_cnt_one s ppn >>= λ (prev, t).
    let freed = addr ppn >>= dealloc_frame t in if prev == 1 then freed else panic

-- `pick` is the frame that the allocator takes, if it has one; the counts are in use
unfoldable pub alloc_frame : Frames → Option ℕ → Run (Option ℕ × Frames)
unfolding is_free increase page_num
alloc_frame s none = ok (none, s)
alloc_frame s (some paddr) = do
  assert (is_valid paddr)
  free ← is_free s (page_num paddr)
  assert free
  t ← increase (record s { spare = update s.spare (page_num paddr) false }) (page_num paddr)
  ok (some paddr, t)
