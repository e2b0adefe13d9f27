-- ===== src/Tests/Pages.antt =====
-- The theorems on page table entries, frames and page faults.
use mankoros.Base.{
  ℕ, ◌+◌, ◌-◌, ◌*◌, ◌/◌, ◌%◌, ◌^◌, ◌≡◌, ◌⊎◌, refl, true, false, ◌==◌, if◌then◌else◌, update, Option,
  none, some, [], ◌∷◌, ok, panic, Returns, arith,
}
use mankoros.Address.{page_size}
use mankoros.BTreeMap
use mankoros.RangeMap
use mankoros.Frame
use mankoros.Frame.{Frames}
use mankoros.Frame.Calls.{settles, counts}
use mankoros.Frame.Count.{alloc_frame-panics_past_size}
use mankoros.Pte
use mankoros.Pte.Entry.{Updates, become_shared-become_unique}
use mankoros.UserSpace.Perm.{read_write}
use mankoros.UserSpace.Area.{mmap_anonymous, mmap_private}
use mankoros.UserSpace.Manager.{Areas}
use mankoros.UserSpace.Fault
use mankoros.UserSpace.Fault.{Pages, kernel_oom}
use mankoros.UserSpace.Fault.Cow.{IsMapped, copy_correct, copy-loses_reference}

become_shared-become_unique_example :
    ((Pte.shared 0x2000_0c07 ≡ true) × (Pte.become_shared 0x2000_0c07 false ≡ panic))
    ⊎ ((Pte.shared 0x2000_0c07 ≡ false)
        × Returns
            (λ m.
              Updates (λ f. record f { shared = true; w = false }) 0x2000_0c07 m
              × (Pte.become_unique m (Pte.writable 0x2000_0c07) ≡ ok (0x2000_0c07 % 2 ^ 16)))
            (Pte.become_shared 0x2000_0c07 false))
become_shared-become_unique_example = become_shared-become_unique 0x2000_0c07

-- frame 3 has two references, frame 5 one, the others are spare
abbrev references : ℕ → ℕ
references p = if p == 3 then 2 else if p == 5 then 1 else 0

abbrev some_frames : Frames
some_frames = record {
  max_memory = 0x10_0000;
  ref_cnt = references;
  spare = λ p. references p == 0;
}

alloc_frame-panics_past_size_example :
    Frame.alloc_frame some_frames (some (3 * page_size + 0x8000_0000)) ≡ panic
alloc_frame-panics_past_size_example =
    alloc_frame-panics_past_size some_frames 0x8000_0000 3 (omega arith) (omega arith) (omega arith)

-- The frames 3 and 5 contain 30 and 50; page 8 is mapped to frame 3 and page 9 to frame 5, both read-only and
-- shared.
abbrev some_pages : Pages ℕ
some_pages = record {
  entries =
      λ v. if v == 8 then some (3 * 1024 + 275) else if v == 9 then some (5 * 1024 + 275) else none;
  frames = some_frames;
  contents = λ a. a / page_size * 10;
  mid_tables = λ i. true;
  last_tables = λ i. i == 0;
  table_picks = some (9 * page_size) ∷ [];
  is_current = true;
}

abbrev zeros : ℕ
zeros = 0

-- a file system that gives the frame of the same number as the page of the file
abbrev get_page : ℕ → ℕ → Pages ℕ → Option (ℕ × Pages ℕ)
get_page file offset s = some (offset / page_size * page_size, s)

abbrev two_kinds : Areas ℕ ℕ
two_kinds =
    (
      0x8000,
      record { end = 0xc000; value = record { kind = mmap_private 7 0x2000; perm = read_write } },
    )
    ∷ (
      0x1_0000,
      record { end = 0x2_0000; value = record { kind = mmap_anonymous; perm = read_write } },
    )
    ∷ []

copy_correct_example :
    Returns
      (λ o.
        IsMapped some_pages 8 6 read_write o
        × (o.1.frames
            ≡ settles
                (counts some_frames (Pte.ppn 3347) (some_frames.ref_cnt (Pte.ppn 3347) - 1))
                6
                1)
        × (o.1.contents
            ≡ update some_pages.contents
                (6 * page_size)
                (some_pages.contents (Pte.ppn 3347 * page_size))))
      (Fault.break_cow some_pages 8 read_write 3347 (some (6 * page_size)))
unfolding Pte.flags Pte.ppn
copy_correct_example =
    copy_correct some_pages 8 3347 6 read_write
      (refl, refl, refl, (omega arith, omega arith), omega arith) (omega arith) refl (refl, refl)
      ((omega arith, omega arith), omega arith, omega arith) refl

copy-loses_reference_example :
    Fault.break_cow some_pages 8 read_write 3347 none
    ≡ ok (
      some kernel_oom,
      record some_pages {
        frames = counts some_frames (Pte.ppn 3347) (some_frames.ref_cnt (Pte.ppn 3347) - 1);
      },
    )
unfolding Pte.flags Pte.ppn
copy-loses_reference_example =
    copy-loses_reference some_pages 8 3347 read_write
      (refl, refl, refl, (omega arith, omega arith), omega arith) (omega arith) refl
