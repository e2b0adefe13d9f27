-- ===== src/Process/Dup.antt =====
-- The table of open files: a duplicated descriptor, at a number of the pool and at a given one.
use mankoros.Base.{
  ℕ, ◌+◌, ◌-◌, ◌≤◌, ◌<◌, ◌≡◌, refl, ap, ◌∙◌, false, none, some, [], leb, length, ok, arith, ◌⊎◌,
  inl, inr, Bool-cases, Returns, returns, Returns-of, Returns-bind, usize_mod, add_usize-ok,
}
use mankoros.BTreeMap
use mankoros.BTreeMap.{Map}
use mankoros.Errors.{emfile, SysResult, done, err}
use mankoros.Pid
use mankoros.Pid.{UsizePool, IsPooled, take_from}
use mankoros.Process.Fds.{
  FileDescriptor, new_descriptor, FdTable, insert, check_whether_alloc_will_exceeded_limit, alloc,
  exactly, greater_than, new_fd_no, dup, get,
}
use mankoros.Process.Pool.{new_fd_no_correct}
use mankoros.Process.Table.{
  IsOpened, live_of, get-insert, insert-new, length-map_insert, inserted-IsOpened,
}

abbrev pub DupedAbove : FdTable → FileDescriptor → ℕ → SysResult ℕ × FdTable → Type 0
DupedAbove t d lower_bound (r, t') =
    ((t.limit ≤ length t.table) × (r ≡ err emfile) × (t' ≡ t))
    ⊎ ((length t.table < t.limit)
        × ((fd : ℕ) × (r ≡ done fd) × (lower_bound ≤ fd) × IsOpened t d fd t'))

-- Duplicating a descriptor at a number from a lower bound up, where the pool accounts for the
-- numbers from 3 in the table and the numbers up to the bound stay below 2^64: the search for a
-- number ends; with the table at its limit the result is EMFILE and nothing changes; below it the
-- copy gets a number that was not in use and is not below the bound, every other number keeps its
-- descriptor, and the pool accounts for the table again, without the numbers that were passed over.
pub dup_correct :
    (t : FdTable) (lower_bound : ℕ) (d : FileDescriptor)
    → IsPooled 3 (live_of t.table) t.pool
    → t.pool.next + (lower_bound - t.pool.next) + 1 < usize_mod
    → Returns (DupedAbove t d lower_bound) (dup t (greater_than lower_bound) d)
unfolding dup check_whether_alloc_will_exceeded_limit
dup_correct t lower_bound d h b = elim (Bool-cases (leb t.limit (length t.table))) [
  | inl full ↦ rw full (returns (inl (ground (arith, full), refl, refl)))
  | inr room ↦ rw room (
      Returns-bind (new_fd_no_correct 3 (live_of t.table) t.pool lower_bound h b)
        (λ (fd, pool) (above, fresh, p).
          returns
            (inr (ground (arith, room), (fd, refl, above, inserted-IsOpened t d fd pool fresh p)))))
]

-- the pool gives its next number, where none is recycled
alloc-next :
    (t : FdTable) (file : ℕ)
    → t.pool.recycled ≡ []
    → t.pool.next + 1 < usize_mod
    → length t.table < t.limit
    → alloc t file
      ≡ ok (
        done t.pool.next,
        record t {
          pool = record { next = t.pool.next + 1; recycled = [] };
          table = insert t.pool.next (new_descriptor file) t.table;
        },
      )
unfolding alloc check_whether_alloc_will_exceeded_limit Pid.get take_from
alloc-next t file none_recycled b room =
    let below : leb t.limit (length t.table) ≡ false = ground (arith, room) in
    rw below (rw none_recycled (rw (add_usize-ok t.pool.next 1 b) refl))

dup-exactly :
    (t : FdTable) (fd : ℕ) (d : FileDescriptor)
    → length t.table < t.limit
    → BTreeMap.get fd t.table ≡ none
    → dup t (exactly fd) d ≡ ok (done fd, record t { table = insert fd d t.table })
unfolding dup check_whether_alloc_will_exceeded_limit new_fd_no
dup-exactly t fd d room gone =
    let below : leb t.limit (length t.table) ≡ false = ground (arith, room) in
    rw gone (rw below refl)

-- `Exactly` does not take its number from the pool. Duplicating a descriptor at the number the pool
-- gives next, where none is recycled and the table has room for two more, succeeds; the file opened
-- after it gets the same number, and the duplicate is gone.
pub dup-alloc :
    (t : FdTable) (file : ℕ) (d : FileDescriptor)
    → t.pool.recycled ≡ []
    → t.pool.next + 1 < usize_mod
    → get t t.pool.next ≡ none
    → length t.table + 1 < t.limit
    → Returns
        (λ (r, t1).
          (r ≡ done t.pool.next)
          × (get t1 t.pool.next ≡ some d)
          × Returns
              (λ (r', t2).
                (r' ≡ done t.pool.next) × (get t2 t.pool.next ≡ some (new_descriptor file)))
              (alloc t1 file))
        (dup t (exactly t.pool.next) d)
unfolding get
dup-alloc t file d none_recycled b gone room =
    let t1 : FdTable = record t { table = insert t.pool.next d t.table } in
    let longer : length t1.table ≡ length t.table + 1 =
      ap length (insert-new t.pool.next d t.table gone) ∙ length-map_insert t.pool.next d t.table in
    let again = alloc-next t1 file none_recycled b (ground (arith, longer, room)) in
    Returns-of (dup-exactly t t.pool.next d (omega (arith, room)) gone) (
      refl,
      (get-insert t.pool.next d t.table).0,
      Returns-of again (refl, (get-insert t.pool.next (new_descriptor file) t1.table).0),
    )
