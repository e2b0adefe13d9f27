-- ===== src/UserSpace/Manager.antt =====
-- UserAreaManager, src/process/user_space/user_area.rs.
use mankoros.Base.{
  ℕ, ◌-◌, ◌%◌, ◌&&◌, Option, none, some, [], ltb, leb, if◌then◌else◌, Run, ok, ◌>>=◌, ◌>>◌, assert,
  unwrap, add_usize, sub_usize,
}
use mankoros.Errors.{SysResult, done, err, enomem, einval}
use mankoros.RangeMap
use mankoros.RangeMap.{RangeMap}
use mankoros.Address.Virt
use mankoros.UserSpace.Perm.{UserAreaPerm, read_write}
use mankoros.UserSpace.Area.{
  UserArea, new_with_same_kind, new_anonymous, new_private, new_shm, split_and_make_left,
  split_and_make_right,
}

-- src/consts/address_space.rs
abbrev pub heap_beg : ℕ
heap_beg = 0x4000_0000

abbrev pub stack_beg : ℕ
stack_beg = 0x1_0000_0000

abbrev pub stack_end : ℕ
stack_end = 0x2_0000_0000

abbrev pub mmap_beg : ℕ
mmap_beg = 0x2_0000_0000

abbrev pub mmap_end : ℕ
mmap_end = 0x4_0000_0000

abbrev pub share_beg : ℕ
share_beg = 0x4_0000_0000

abbrev pub share_end : ℕ
share_end = 0x6_0000_0000

-- the closures `|va, n| (va + n).round_up()` and `|va, n| (va + n).ceil()`
unfoldable pub stack_offset : ℕ → ℕ → Run ℕ
stack_offset va n = add_usize va n >>= Virt.round_up

unfoldable pub mmap_offset : ℕ → ℕ → Run ℕ
mmap_offset va n = add_usize va n >>= Virt.ceil

abbrev pub Areas : Type 0 → Type 0 → Type 0
Areas File Shm = RangeMap (UserArea File Shm)

-- the range of a new area or an error, and the map
abbrev pub Inserted : Type 0 → Type 0 → Type 0
Inserted File Shm = SysResult (ℕ × ℕ) × Areas File Shm

module _ {File Shm : Type 0} where
  -- the first address of the stack going down, and the map
  unfoldable pub alloc_stack : Areas File Shm → ℕ → Run (ℕ × Areas File Shm)
  alloc_stack m size = do
    found ← RangeMap.find_free_range m stack_beg stack_end size stack_offset
    (start, end) ← unwrap found
    last ← sub_usize end 1
    inserted ← RangeMap.try_insert m start end (new_anonymous read_write)
    m' ← unwrap inserted
    ok (last - last % 16, m')

  unfoldable pub insert_heap : Areas File Shm → ℕ → Run (Areas File Shm)
  insert_heap m init_size = do
    end ← add_usize heap_beg init_size
    inserted ← RangeMap.try_insert m heap_beg end (new_anonymous read_write)
    unwrap inserted

  unfoldable pub get_heap_break : Areas File Shm → Run ℕ
  get_heap_break m = unwrap (RangeMap.get m heap_beg) >>= λ (start, end, area). ok end

  unfoldable pub reset_heap_break : Areas File Shm → ℕ → Run (SysResult (Unit {0}) × Areas File Shm)
  reset_heap_break m new_brk = do
    (start, end, area) ← unwrap (RangeMap.get m heap_beg)
    let extended : Run (SysResult (Unit {0}) × Areas File Shm) =
        RangeMap.extend_back m start new_brk >>= λ r.
        ok (elim r [ none ↦ (err enomem, m) | some m' ↦ (done tt, m') ])
    let reduced : Run (SysResult (Unit {0}) × Areas File Shm) =
        RangeMap.reduce_back m start new_brk >>= λ r.
        ok (elim r [ none ↦ (err enomem, m) | some (_, _, m') ↦ (done tt, m') ])
    if ltb end new_brk then extended else if ltb new_brk end then reduced else ok (done tt, m)

  -- `find_free_mmap_area` and `find_free_share_area`: a start and a size
  unfoldable pub find_free_area : Areas File Shm → ℕ → ℕ → ℕ → Run (Option (ℕ × ℕ))
  find_free_area m beg end size = do
    found ← RangeMap.find_free_range m beg end size mmap_offset
    elim found [ none ↦ ok none | some (s, t) ↦ sub_usize t s >>= λ n. ok (some (s, n)) ]

  unfoldable pub insert_at : Areas File Shm → ℕ → ℕ → UserArea File Shm → Run (Inserted File Shm)
  insert_at m begin size area = do
    end ← add_usize begin size
    inserted ← RangeMap.try_insert m begin end area
    ok (elim inserted [ none ↦ (err enomem, m) | some m' ↦ (done (begin, end), m') ])

  unfoldable pub insert_mmap_anonymous_at :
      Areas File Shm → ℕ → ℕ → UserAreaPerm → Run (Inserted File Shm)
  insert_mmap_anonymous_at m begin size perm = insert_at m begin size (new_anonymous perm)

  unfoldable pub insert_mmap_private_at :
      Areas File Shm → ℕ → ℕ → UserAreaPerm → File → ℕ → Run (Inserted File Shm)
  insert_mmap_private_at m begin size perm file offset =
      insert_at m begin size (new_private perm file offset)

  unfoldable pub insert_mmap_anonymous : Areas File Shm → ℕ → UserAreaPerm → Run (Inserted File Shm)
  insert_mmap_anonymous m size perm = do
    found ← find_free_area m mmap_beg mmap_end size
    elim found [ none ↦ ok (err enomem, m) | some (s, n) ↦ insert_mmap_anonymous_at m s n perm ]

  unfoldable pub insert_mmap_private :
      Areas File Shm → ℕ → UserAreaPerm → File → ℕ → Run (Inserted File Shm)
  insert_mmap_private m size perm file offset = do
    found ← find_free_area m mmap_beg mmap_end size
    elim found [
      | none ↦ ok (err enomem, m)
      | some (s, n) ↦ insert_mmap_private_at m s n perm file offset
    ]

  -- `size` is `shm.size()`
  unfoldable pub insert_shm_at :
      (Shm → ℕ) → Areas File Shm → ℕ → UserAreaPerm → ℕ → Shm → Run (Inserted File Shm)
  insert_shm_at size m begin perm id shm =
      assert (leb share_beg begin && ltb begin share_end)
      >> insert_at m begin (size shm) (new_shm perm id shm)

  unfoldable pub insert_shm :
      (Shm → ℕ) → Areas File Shm → UserAreaPerm → ℕ → Shm → Run (Inserted File Shm)
  insert_shm size m perm id shm = do
    found ← find_free_area m share_beg share_end (size shm)
    elim found [ none ↦ ok (err enomem, m) | some (s, n) ↦ insert_shm_at size m s perm id shm ]

  unfoldable pub remove_shm : Areas File Shm → ℕ → Run (Inserted File Shm)
  remove_shm m vaddr = elim (RangeMap.get m vaddr) [
    | none ↦ ok (err einval, m)
    | some (start, end, area) ↦
        RangeMap.force_remove_one m start end >>= λ (area', m'). ok (done (start, end), m')
  ]

  -- the map, and the areas whose pages are released, the last one first
  unfoldable pub take_range : Areas File Shm → ℕ → ℕ → Run (Areas File Shm × Areas File Shm)
  take_range m start end = RangeMap.remove m start end split_and_make_left split_and_make_right []

  unfoldable pub remap_range : Areas File Shm → ℕ → ℕ → UserAreaPerm → Run (Areas File Shm)
  remap_range m start end new_perm = do
    (_, _, old_area) ← unwrap (RangeMap.get m start)
    (m', _) ← RangeMap.remove m start end split_and_make_left split_and_make_right []
    inserted ← RangeMap.try_insert m' start end (new_with_same_kind old_area new_perm)
    unwrap inserted
