-- ===== src/UserSpace/Remap.antt =====
-- The change of permissions, and the stack, src/process/user_space/user_area.rs.
use mankoros.Base.{
  ℕ, ◌+◌, ◌-◌, ◌%◌, ◌^◌, ◌≤◌, ◌<◌, ◌≡◌, Option, none, some, ok, panic, unwrap, sub_usize-ok,
  Returns, Returns-of, Returns-inv, returns, arith, ◌⊎◌, inl, inr,
}
use mankoros.RangeMap
use mankoros.RangeMap.Free.{IsFree}
use mankoros.RangeMap.View.{view, IsValid}
use mankoros.RangeMap.Clear.{IsClear, IsClearOr}
use mankoros.RangeMap.Insert
use mankoros.RangeMap.Insert.{view_with, try_insert_correct}
use mankoros.RangeMap.Remove.{Removed, remove_correct}
use mankoros.RangeMap.FindFree.Total.{EndsBy, Placed, find_free_range_correct}
use mankoros.UserSpace.Perm.{UserAreaPerm, read_write}
use mankoros.UserSpace.Area.{
  UserArea, new_with_same_kind, new_anonymous, split_and_make_left, split_and_make_right,
}
use mankoros.UserSpace.Split.{area_at, CanSplit, split_correct}
use mankoros.UserSpace.Manager.{
  Areas, remap_range, alloc_stack, stack_beg, stack_end, share_end, stack_offset,
}
use mankoros.UserSpace.Place.{stack-Grows, stack_up, stack-IsTotal}

module _ {File Shm : Type 0} where
  -- the map with the range remapped: the kind of the area at its start, as it is written there
  abbrev pub Remapped :
      Areas File Shm → ℕ → ℕ → UserArea File Shm → UserAreaPerm → Areas File Shm → Type 0
  Remapped m start end old perm m' =
      IsValid m'
      × ((k : ℕ)
          → view area_at m' k
            ≡ view_with area_at m start end (record { kind = old.kind; perm = perm }) k)

  inserted_remap :
      (m m' : Areas File Shm) (log : Areas File Shm) (start end : ℕ) (old : UserArea File Shm)
      (perm : UserAreaPerm) (o : Option (Areas File Shm))
      → start < end
      → Removed area_at m start end (m', log)
      → Insert.Inserted area_at m' start end (new_with_same_kind old perm) o
      → Returns (Remapped m start end old perm) (unwrap o)
  unfolding new_with_same_kind
  inserted_remap m m' log start end old perm none h removed (k, p, q, taken) =
      absurd (ground (arith, taken, removed.left k))
  inserted_remap m m' log start end old perm (some u) h removed (_, v, same) =
      returns (v, λ k. ground (arith, same k, removed.left k))

  -- On a well-formed map and a non-empty range whose start is mapped, where the areas that cross an
  -- end of the range can be split, `remap_range` does not panic, keeps the map well formed and
  -- every address outside the range, and gives the whole range the new permissions and the kind of
  -- the area at its start, with the file offset that this area has at its own start.
  pub remap_range_correct :
      (m : Areas File Shm) (start end a e : ℕ) (old : UserArea File Shm) (perm : UserAreaPerm)
      → IsValid m
      → start < end
      → IsClearOr CanSplit start m
      → IsClearOr CanSplit end m
      → RangeMap.get m start ≡ some (a, e, old)
      → Returns (Remapped m start end old perm) (remap_range m start end perm)
  unfolding remap_range
  remap_range_correct m start end a e old perm v h c d found =
      let ((m', log), is, removed) = Returns-inv (
        remove_correct area_at CanSplit split_and_make_left split_and_make_right split_correct.0
          split_correct.1 m start end v h c d) in
      let (o, fresh, inserted) =
        Returns-inv
          (try_insert_correct area_at m' start end (new_with_same_kind old perm) removed.valid h) in
      let (u, there, p) =
        Returns-inv (inserted_remap m m' log start end old perm o h removed inserted) in
      Returns-of {a = u} (ground (arith, found, is, fresh, there)) p

  -- what a new stack is: a free range of the window, and a pointer aligned to 16 bytes at its top
  abbrev pub Stacked : Areas File Shm → ℕ → ℕ × Areas File Shm → Type 0
  Stacked m size (sp, m') =
      (s t : ℕ) × (stack_beg ≤ s)
      × (s + size ≤ t)
      × (t ≤ stack_end)
      × IsFree area_at m s t
      × IsValid m'
      × ((k : ℕ) → view area_at m' k ≡ view_with area_at m s t (new_anonymous read_write) k)
      × (sp % 16 ≡ 0)
      × (sp < t)
      × (t ≤ sp + 16)

  stack_inserted :
      (m : Areas File Shm) (size s t : ℕ) (o : Option (Areas File Shm))
      → s < t
      → Placed area_at stack_offset stack_end size m stack_beg (some (s, t))
      → Insert.Inserted area_at m s t (new_anonymous read_write) o
      → RangeMap.find_free_range m stack_beg stack_end size stack_offset ≡ ok (some (s, t))
      → RangeMap.try_insert m s t (new_anonymous read_write) ≡ ok o
      → Returns (Stacked m size) (alloc_stack m size)
  unfolding alloc_stack
  stack_inserted m size s t none h (after, is, long, fits, free) (k, p, q, taken) found e =
      absurd (taken (free k p (omega arith)))
  stack_inserted m size s t (some m') h (after, is, long, fits, free) (_, v, same) found e =
      Returns-of {a = (t - 1 - (t - 1) % 16, m')}
        (ground (arith, found, e, sub_usize-ok t 1 (omega arith)))
        (
          s,
          t,
          after,
          long,
          fits,
          (λ k p q. free k p (omega arith)),
          v,
          same,
          omega arith,
          omega arith,
          omega arith,
        )

  -- On a well-formed map, with the areas below the end of the user space, none across the start of
  -- the stack window, and a size below 2^63, `alloc_stack` panics exactly where no place is found,
  -- and else puts an area on a free range of the window, changes nothing else, and returns the
  -- highest address of it that is a multiple of 16.
  pub alloc_stack_correct :
      (m : Areas File Shm) (size : ℕ)
      → IsValid m
      → IsClear stack_beg m
      → EndsBy share_end m
      → size < 2 ^ 63
      → ((RangeMap.find_free_range m stack_beg stack_end size stack_offset ≡ ok none)
          × (alloc_stack m size ≡ panic))
        ⊎ Returns (Stacked m size) (alloc_stack m size)
  alloc_stack_correct m size v c b h =
      let (o, e, p) = Returns-inv (
        find_free_range_correct area_at stack_offset stack_end size share_end m stack_beg
          (stack-IsTotal size share_end (omega arith)) stack-Grows v c b (omega arith)) in
      from o e p
    where
      from :
          (o : Option (ℕ × ℕ))
          → RangeMap.find_free_range m stack_beg stack_end size stack_offset ≡ ok o
          → Placed area_at stack_offset stack_end size m stack_beg o
          → ((RangeMap.find_free_range m stack_beg stack_end size stack_offset ≡ ok none)
              × (alloc_stack m size ≡ panic))
            ⊎ Returns (Stacked m size) (alloc_stack m size)
      from none e p = inl (e, unfold alloc_stack in ground (arith, e))
      from (some (s, t)) e p =
          let room : s < t = stack_up s size t p.1 in
          let (o, there, inserted) =
            Returns-inv (try_insert_correct area_at m s t (new_anonymous read_write) v room) in
          inr (stack_inserted m size s t o room p inserted e there)
