-- ===== src/Tests/Spaces.antt =====
-- The theorems on the areas of an address space and on identifiers.
use mankoros.Base.{
  ℕ, ◌≡◌, ◌⊎◌, refl, inl, inr, none, true, false, [], ◌∷◌, ok, panic, Returns, arith,
}
use mankoros.BTreeMap
use mankoros.RangeMap
use mankoros.RangeMap.{Node}
use mankoros.Pid.{UsizePool}
use mankoros.Syscall.{sys_mmap}
use mankoros.Syscall.Mmap.{sys_mmap-ignores_start}
use mankoros.UserSpace.Perm.{UserAreaPerm, read_write}
use mankoros.UserSpace.Area.{UserArea, mmap_anonymous, mmap_private, new_anonymous, new_private}
use mankoros.UserSpace.Manager.{
  Areas, heap_beg, mmap_beg, stack_beg, stack_end, stack_offset, alloc_stack, reset_heap_break,
  insert_mmap_anonymous, insert_mmap_private, remap_range,
}
use mankoros.UserSpace.Map.{Mapped, insert_mmap_correct}
use mankoros.UserSpace.Heap.{Broke, LosesHeap, reset_heap_break_correct, reset_heap_break-LosesHeap}
use mankoros.UserSpace.Remap.{Remapped, Stacked, remap_range_correct, alloc_stack_correct}

abbrev heap_node : Node (UserArea ℕ ℕ)
heap_node = record {
  end = 0x4000_4000;
  value = record { kind = mmap_anonymous; perm = read_write };
}

abbrev mapped_file : UserArea ℕ ℕ
mapped_file = record { kind = mmap_private 7 0; perm = read_write }

abbrev read_only : UserAreaPerm
read_only = record { read = true; write = false; execute = false }

-- a heap and a file of four pages
abbrev space : Areas ℕ ℕ
space = (heap_beg, heap_node) ∷ (mmap_beg, record { end = 0x2_0000_4000; value = mapped_file }) ∷ []

insert_mmap_correct_example :
    Returns
      (Mapped space 5000 (new_anonymous read_only))
      (insert_mmap_anonymous space 5000 read_only)
    × Returns
        (Mapped space 5000 (new_private read_only 8 4096))
        (insert_mmap_private space 5000 read_only 8 4096)
insert_mmap_correct_example =
    insert_mmap_correct space 5000 read_only 8 4096
      (omega arith, omega arith, (omega arith, omega arith, tt))
      (inl (omega arith), (inr (inl (omega arith)), tt)) (omega arith, (omega arith, tt))
      (omega arith) (omega arith)

reset_heap_break_correct_example :
    Returns (Broke space heap_node 0x4000_6000) (reset_heap_break space 0x4000_6000)
reset_heap_break_correct_example =
    reset_heap_break_correct space heap_node 0x4000_6000
      (omega arith, omega arith, (omega arith, omega arith, tt)) (unfold BTreeMap.get in refl)

reset_heap_break-LosesHeap_example : Returns LosesHeap (reset_heap_break space heap_beg)
reset_heap_break-LosesHeap_example =
    reset_heap_break-LosesHeap space heap_node
      (omega arith, omega arith, (omega arith, omega arith, tt)) (unfold BTreeMap.get in refl)

remap_range_correct_example :
    Returns
      (Remapped space 0x2_0000_1000 0x2_0000_2000 mapped_file read_only)
      (remap_range space 0x2_0000_1000 0x2_0000_2000 read_only)
unfolding RangeMap.get BTreeMap.last_below
remap_range_correct_example =
    remap_range_correct space 0x2_0000_1000 0x2_0000_2000 mmap_beg 0x2_0000_4000 mapped_file
      read_only (omega arith, omega arith, (omega arith, omega arith, tt)) (omega arith)
      (inl (omega arith), (inr (inr (omega arith)), tt))
      (inl (omega arith), (inr (inr (omega arith)), tt)) refl

alloc_stack_correct_example :
    ((RangeMap.find_free_range space stack_beg stack_end 0x8000 stack_offset ≡ ok none)
      × (alloc_stack space 0x8000 ≡ panic))
    ⊎ Returns (Stacked space 0x8000) (alloc_stack space 0x8000)
alloc_stack_correct_example =
    alloc_stack_correct space 0x8000 (omega arith, omega arith, (omega arith, omega arith, tt))
      (inl (omega arith), (inr (inl (omega arith)), tt)) (omega arith, (omega arith, tt))
      (omega arith)

sys_mmap-ignores_start_example :
    sys_mmap (λ fd. none) space 0x1000 4096 3 50 0xffff_ffff 0
    ≡ sys_mmap (λ fd. none) space 0x5000 4096 3 50 0xffff_ffff 0
sys_mmap-ignores_start_example =
    sys_mmap-ignores_start (λ fd. none) space 0x1000 0x5000 4096 3 50 0xffff_ffff 0
      (λ e. ground arith) (λ e. ground arith)

-- 1 and 3 are in use and 2 is recycled
abbrev pool : UsizePool
pool = record { next = 4; recycled = 2 ∷ [] }
