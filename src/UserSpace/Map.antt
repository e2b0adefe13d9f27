-- ===== src/UserSpace/Map.antt =====
-- What the areas of an address space are after a call of the manager.
use mankoros.Base.{
  ℕ, ◌+◌, ◌-◌, ◌^◌, ◌≤◌, ◌<◌, ◌≡◌, refl, Option, none, some, ok, ◌>>=◌, add_usize-ok, sub_usize-ok,
  Returns, Returns-of, Returns-inv, arith,
}
use mankoros.Errors.{done, err, enomem}
use mankoros.RangeMap
use mankoros.RangeMap.Free.{IsFree}
use mankoros.RangeMap.View.{view, IsValid}
use mankoros.RangeMap.Clear.{IsClear, IsClearOr}
use mankoros.RangeMap.Insert.{view_with, try_insert_correct}
use mankoros.RangeMap.Insert
use mankoros.RangeMap.Remove.{Removed, remove_correct}
use mankoros.RangeMap.FindFree.Total.{EndsBy, Placed, find_free_range_correct}
use mankoros.UserSpace.Perm.{UserAreaPerm}
use mankoros.UserSpace.Area.{
  UserArea, new_anonymous, new_private, split_and_make_left, split_and_make_right,
}
use mankoros.UserSpace.Split.{area_at, CanSplit, split_correct}
use mankoros.UserSpace.Place.{mmap-Grows, mmap-IsTotal}
use mankoros.UserSpace.Manager.{
  Areas, Inserted, mmap_beg, mmap_end, share_end, mmap_offset, find_free_area, insert_at,
  insert_mmap_anonymous_at, insert_mmap_private_at, insert_mmap_anonymous, insert_mmap_private,
  take_range,
}

module _ {File Shm : Type 0} where
  pub take_range_correct :
      (m : Areas File Shm) (start end : ℕ)
      → IsValid m
      → start < end
      → IsClearOr CanSplit start m
      → IsClearOr CanSplit end m
      → Returns (Removed area_at m start end) (take_range m start end)
  unfolding take_range
  take_range_correct m start end v h a b =
      remove_correct area_at CanSplit split_and_make_left split_and_make_right split_correct.0
        split_correct.1 m start end v h a b

  -- what a placed insertion answers: an error that leaves the map, or a range of the mmap window that was
  -- free and now is the area
  abbrev pub Mapped : Areas File Shm → ℕ → UserArea File Shm → Inserted File Shm → Type 0
  Mapped m size area (err e, m') = (e ≡ enomem) × (m' ≡ m)
  Mapped m size area (done (s, t), m') =
      (mmap_beg ≤ s)
      × (s + size ≤ t)
      × (t ≤ mmap_end)
      × IsFree area_at m s t
      × IsValid m'
      × ((k : ℕ) → view area_at m' k ≡ view_with area_at m s t area k)

  insert_answer :
      (m : Areas File Shm) (size s t : ℕ) (area : UserArea File Shm) (o : Option (Areas File Shm))
      → Insert.Inserted area_at m s t area o
      → mmap_beg ≤ s
      → s + size ≤ t
      → t ≤ mmap_end
      → IsFree area_at m s t
      → RangeMap.try_insert m s t area ≡ ok o
      → s < t
      → Returns (Mapped m size area) (insert_at m s (t - s) area)
  unfolding insert_at
  insert_answer m size s t area none (k, low, high, taken) after long fits free e h =
      absurd (taken (free k low high))
  insert_answer m size s t area (some m') (_, v, same) after long fits free e h =
      Returns-of {a = (done (s, t), m')} (ground (arith, e, add_usize-ok s (t - s) (omega arith)))
        (after, long, fits, free, v, same)

  insert_found :
      (m : Areas File Shm) (size s t : ℕ) (area : UserArea File Shm)
      → IsValid m
      → 0 < size
      → Placed area_at mmap_offset mmap_end size m mmap_beg (some (s, t))
      → Returns (Mapped m size area) (insert_at m s (t - s) area)
  insert_found m size s t area v h (after, is, long, fits, free) =
      let (o, e, inserted) = Returns-inv (try_insert_correct area_at m s t area v (omega arith)) in
      insert_answer m size s t area o inserted after long fits (λ k p q. free k p (omega arith)) e
        (omega arith)

  insert-Placed :
      (m : Areas File Shm) (size : ℕ) (area : UserArea File Shm) (o : Option (ℕ × ℕ))
      → IsValid m
      → 0 < size
      → RangeMap.find_free_range m mmap_beg mmap_end size mmap_offset ≡ ok o
      → Placed area_at mmap_offset mmap_end size m mmap_beg o
      → Returns (Mapped m size area) (
          find_free_area m mmap_beg mmap_end size >>= λ found. elim found [
            | none ↦ ok (err enomem, m)
            | some (s, n) ↦ insert_at m s n area
          ])
  unfolding find_free_area
  insert-Placed m size area none v h e p =
      Returns-of {a = (err enomem, m)} (ground (arith, e)) (refl, refl)
  insert-Placed m size area (some (s, t)) v h e p =
      let (a, is, q) = Returns-inv (insert_found m size s t area v h p) in
      Returns-of {a = a} (ground (arith, e, is, p, sub_usize-ok t s (omega arith))) q

  -- On a well-formed map, with the areas below the end of the user space and none across the start
  -- of the mmap window, both placed mmap calls of at least one byte and less than 2^63 do not
  -- panic: they answer ENOMEM and leave the map, or put the area on a range of the window of at
  -- least that size that was free, change nothing else, and keep the map well formed.
  pub insert_mmap_correct :
      (m : Areas File Shm) (size : ℕ) (perm : UserAreaPerm) (file : File) (offset : ℕ)
      → IsValid m
      → IsClear mmap_beg m
      → EndsBy share_end m
      → 0 < size
      → size < 2 ^ 63
      → Returns (Mapped m size (new_anonymous perm)) (insert_mmap_anonymous m size perm)
        × Returns
            (Mapped m size (new_private perm file offset))
            (insert_mmap_private m size perm file offset)
  unfolding insert_mmap_anonymous insert_mmap_private insert_mmap_anonymous_at
      insert_mmap_private_at
  insert_mmap_correct m size perm file offset v c b h small =
      let (o, e, p) = Returns-inv (
        find_free_range_correct area_at mmap_offset mmap_end size share_end m mmap_beg
          (mmap-IsTotal size share_end (omega arith)) mmap-Grows v c b (omega arith)) in
      (insert-Placed m size _ o v h e p, insert-Placed m size _ o v h e p)
