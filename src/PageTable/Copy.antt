-- ===== src/PageTable/Copy.antt =====
-- src/memory/pagetable/pagetable.rs: `copy_table_and_mark_self_cow`, the copy of a page table for a fork. What
-- is done with the frame of a user page is an argument; `UserSpace::clone_cow` counts a reference.
use mankoros.Base.{
  ℕ, zero, suc, ◌+◌, ◌*◌, ◌^◌, ◌/◌, Bool, ◌&&◌, none, some, leb, ltb, if◌then◌else◌, update, Run,
  ok, ◌>>=◌, ◌>>◌, assert,
}
use mankoros.Address.{page_size}
use mankoros.Frame
use mankoros.Frame.{Frames}
use mankoros.Pte
use mankoros.UserSpace.Manager.{share_beg, share_end}
use mankoros.PageTable.Defs.{
  PageTable, Memory, Slot, entry_count, read, write, new, unmap_user_space, next_table_mut_opt,
  next_table_mut_or_create,
}

-- the address of a page by its three indices, and whether it is in the segment of shared memory
abbrev pub page_of : ℕ → ℕ → ℕ → ℕ
page_of idx1 idx2 idx3 = (idx1 * 2 ^ 18 + idx2 * 2 ^ 9 + idx3) * 2 ^ 12

abbrev pub in_share_seg : ℕ → Bool
in_share_seg vaddr = leb share_beg vaddr && ltb vaddr share_end

-- what an entry of a user page becomes: it is copied on write, unless it is shared memory
unfoldable pub marked : Bool → ℕ → ℕ
marked in_share e = if in_share then e else Pte.set_shared (Pte.clear_writable e)

-- one entry of the last level, from slot `o` to slot `n`
unfoldable pub copy_page : (ℕ → Frames → Run Frames) → ℕ → Slot → Slot → Memory → Run Memory
copy_page do_with_frame vaddr o n m =
    let e = read m o in
    let e' = marked (in_share_seg vaddr) e in
    let user = do_with_frame (Pte.paddr e) m.frames >>= λ fs.
    ok (write (write (record m { frames = fs }) o e') n e') in
    let kernel = ok (write m n e) in
    let valid = assert (Pte.is_leaf e) >> (if Pte.is_user e then user else kernel) in
    if Pte.is_valid e then valid else ok m

-- the entries of the last level from an index on, `k` of them
unfoldable pub copy_pages : (ℕ → Frames → Run Frames) → ℕ → ℕ → ℕ → ℕ → ℕ → ℕ → Memory → Run Memory
unfolding copy_page
copy_pages do_with_frame idx1 idx2 op3 np3 idx3 zero m = ok m
copy_pages do_with_frame idx1 idx2 op3 np3 idx3 (suc k) m = do
  m' ←
      copy_page do_with_frame (page_of idx1 idx2 idx3) (record { table = op3; index = idx3 })
        (record { table = np3; index = idx3 }) m
  copy_pages do_with_frame idx1 idx2 op3 np3 (suc idx3) k m'

-- what the two upper levels do with an entry: a huge page is copied, and below a table `go` copies on,
-- from the old table to the new one
abbrev pub copy_below :
    (ℕ → ℕ → PageTable → Memory → Run (PageTable × Memory))
    → Slot
    → Slot
    → PageTable
    → Memory
    → Run (PageTable × Memory)
copy_below go o n t m =
    let huge = ok (t, write m n (read m o)) in
    let table = next_table_mut_opt (read m o) >>= λ next. elim next [
      | none ↦ ok (t, m)
      | some old_next ↦
          next_table_mut_or_create t m n >>= λ (new_next, t', m'). go old_next new_next t' m'
    ] in
    if Pte.is_leaf (read m o) then huge else table

unfoldable pub copy_mid :
    (ℕ → Frames → Run Frames) → ℕ → ℕ → ℕ → ℕ → ℕ → PageTable → Memory → Run (PageTable × Memory)
unfolding copy_pages next_table_mut_opt next_table_mut_or_create
copy_mid do_with_frame idx1 op2 np2 idx2 zero t m = ok (t, m)
copy_mid do_with_frame idx1 op2 np2 idx2 (suc k) t m =
    copy_below
      (λ op3 np3 t' m'.
        copy_pages do_with_frame idx1 idx2 op3 np3 0 entry_count m' >>= λ m''. ok (t', m''))
      (record { table = op2; index = idx2 }) (record { table = np2; index = idx2 }) t m
    >>= λ (t1, m1). copy_mid do_with_frame idx1 op2 np2 (suc idx2) k t1 m1

unfoldable pub copy_top :
    (ℕ → Frames → Run Frames) → ℕ → ℕ → ℕ → ℕ → PageTable → Memory → Run (PageTable × Memory)
unfolding copy_mid next_table_mut_opt next_table_mut_or_create
copy_top do_with_frame op1 np1 idx1 zero t m = ok (t, m)
copy_top do_with_frame op1 np1 idx1 (suc k) t m =
    copy_below (λ op2 np2 t' m'. copy_mid do_with_frame idx1 op2 np2 0 entry_count t' m')
      (record { table = op1; index = idx1 }) (record { table = np1; index = idx1 }) t m
    >>= λ (t1, m1). copy_top do_with_frame op1 np1 (suc idx1) k t1 m1

unfoldable pub copy_table_and_mark_self_cow :
    (ℕ → Frames → Run Frames) → PageTable → Memory → Run (PageTable × Memory)
unfolding new unmap_user_space copy_top
copy_table_and_mark_self_cow do_with_frame old m = new m >>= λ (t, m1).
    let m2 = record m1 { entries = update m1.entries t.root_paddr (m1.entries old.root_paddr) } in
    copy_top do_with_frame old.root_paddr t.root_paddr 0 entry_count t (unmap_user_space t m2)

-- the closure of `UserSpace::clone_cow`
unfoldable pub clone_cow : PageTable → Memory → Run (PageTable × Memory)
unfolding copy_table_and_mark_self_cow
clone_cow t m = copy_table_and_mark_self_cow (λ paddr fs. Frame.increase fs (paddr / page_size)) t m
