-- ===== src/PageTable/Fork.antt =====
-- The copy of a table of the last level for a fork: each user page is in both tables, and counted once more.
use mankoros.Base.{ℕ, zero, suc, ◌+◌, ◌≡◌, ◌≢◌, ◌∙◌, Returns, returns, Returns-map, arith}
use mankoros.PageTable.Defs.{Memory, Slot}
use mankoros.PageTable.Copy.{page_of, copy_pages}
use mankoros.PageTable.CopyPage.{
  count_frame, copied, users, IsForkable, users-cong, stepped, copy_page-stepped, stepped-entries,
  copied-none, copied-suc, stepped-ref_cnt, stepped-IsForkable,
}

-- Copying the entries of a table of the last level into another table, from an index on, where what
-- is mapped there are pages, user pages on frames with counters, and the counters have room, does
-- not panic. In both tables the user pages outside of the shared segment are then marked as shared
-- and not writable, and the others are as before, the new table has the valid entries of the old
-- one, nothing else changes, and each frame has one reference more for each user page on it.
pub copy_pages_correct :
    (m : Memory) (idx1 idx2 op np idx k : ℕ)
    → op ≢ np
    → IsForkable m op idx k
    → Returns
        (λ m'.
          ((a j : ℕ) → m'.entries a j ≡ copied m idx1 idx2 op np idx k a j)
          × ((q : ℕ) → m'.frames.ref_cnt q ≡ m.frames.ref_cnt q + users (m.entries op) idx k q))
        (copy_pages count_frame idx1 idx2 op np idx k m)
unfolding copy_pages
copy_pages_correct m idx1 idx2 op np idx zero d h =
    returns (copied-none m idx1 idx2 op np idx, λ q. omega arith)
copy_pages_correct m idx1 idx2 op np idx (suc k) d h =
    let o : Slot = record { table = op; index = idx } in
    let n : Slot = record { table = np; index = idx } in
    let m1 = stepped m (page_of idx1 idx2 idx) o n in
    let e1 = stepped-entries m idx1 idx2 op np idx in
    rw (copy_page-stepped m (page_of idx1 idx2 idx) idx k op np h) (
      Returns-map
        (copy_pages_correct m1 idx1 idx2 op np (suc idx) k d
          (stepped-IsForkable m idx1 idx2 op np idx k d h))
        (λ m' (e, c). (
          λ a j. e a j ∙ copied-suc m m1 idx1 idx2 op np idx k a j d (λ b i. e1 b i d),
          λ q.
              let rest =
                users-cong (m1.entries op) (m.entries op) (suc idx) k q
                  (λ i l. e1 op i d ∙ ground arith) in
              omega (arith, c q, rest, stepped-ref_cnt m (page_of idx1 idx2 idx) op np idx q),
        )))
