-- ===== src/Dir/Window.antt =====
-- src/fs/nfat32/dir.rs: positions in a directory, AtomDEntryWindow and GroupDEntryIter over it. A buffer of
-- the window is the number of the sector it holds, and an entry is found as its sector and its index
-- there, since the buffers are shared with the block cache.
use mankoros.Base.{
  ℕ, zero, suc, ◌+◌, ◌-◌, ◌*◌, ◌/◌, ◌%◌, ◌^◌, Bool, true, false, not, ◌&&◌, ◌||◌, Option, none,
  some, List, [], ◌∷◌, ◌++◌, leb, ltb, ◌==◌, if◌then◌else◌, length, get_elem?, Run, ok, panic,
  ◌>>=◌, ◌>>◌, assert, unwrap, add_usize, sub_usize,
}
use mankoros.Dir.Defs.{
  Atom, FatDentryData, lfn_needed, is_unused, is_end, is_std, mark_unused, write_entry,
}

abbrev pub dentry_size : ℕ
dentry_size = 32

abbrev pub block_size : ℕ
block_size = 512

-- the position in no directory
abbrev pub null : ℕ
null = 2 ^ 64 - 1

unfoldable pub is_null : ℕ → Bool
is_null pos = pos == null

unfoldable pub as_byte_offset : ℕ → Run ℕ
as_byte_offset pos = assert (not (is_null pos)) >> ok pos

-- `offset_ade` by `n` entries to the right
unfoldable pub offset_ade : ℕ → ℕ → Run ℕ
offset_ade pos n = as_byte_offset pos >>= λ p. add_usize p (n * dentry_size)

unfoldable pub as_ade_offset : ℕ → Run ℕ
as_ade_offset pos = as_byte_offset pos >>= λ p. ok (p / dentry_size)

abbrev pub blk_ade_cnt : ℕ
blk_ade_cnt = block_size / dentry_size

unfoldable pub round_down_sct : ℕ → Run ℕ
round_down_sct pos = as_byte_offset pos >>= λ p. ok (p / blk_ade_cnt * blk_ade_cnt)

pub record Window : Type 0 where
  pub sector_bufs : List ℕ
  pub in_append : Bool
  pub next_sector : Option ℕ
  pub begin_pos : ℕ
  pub left_pos : ℕ
  pub right_pos : ℕ

unfoldable pub new : ℕ → Window
new first_sector = record {
  sector_bufs = [];
  in_append = false;
  next_sector = some first_sector;
  begin_pos = 0;
  left_pos = 0;
  right_pos = 0;
}

unfoldable pub new_middle : ℕ → ℕ → Run Window
new_middle sector gde_pos = do
  begin_pos ← round_down_sct gde_pos
  begin_ade ← as_byte_offset gde_pos
  ok (record {
    sector_bufs = [];
    in_append = false;
    next_sector = some sector;
    begin_pos = begin_pos;
    left_pos = begin_ade;
    right_pos = begin_ade;
  })

unfoldable pub buf_idx : Window → ℕ → Run ℕ
buf_idx w pos = do
  p ← as_byte_offset pos
  b ← as_byte_offset w.begin_pos
  d ← sub_usize p b
  ok (d / block_size)

-- `pop_front`, this many times
abbrev pub pop_fronts : ℕ → List ℕ → List ℕ
pop_fronts zero bufs = bufs
pop_fronts (suc n) [] = []
pop_fronts (suc n) (b ∷ bufs) = pop_fronts n bufs

unfoldable pub move_left : Window → ℕ → Run Window
move_left w n = do
  new_left ← offset_ade w.left_pos n
  assert (leb new_left w.right_pos)
  passed ← buf_idx w new_left
  begin_pos ← add_usize w.begin_pos (passed * block_size)
  ok (record w {
    sector_bufs = pop_fronts passed w.sector_bufs;
    begin_pos = begin_pos;
    left_pos = new_left;
  })

-- the place of an entry on the disk
pub record Place : Type 0 where
  pub sector : ℕ
  pub index : ℕ

unfoldable pub get_in_buf : Window → ℕ → Run Place
get_in_buf w buf_ade_idx = do
  sector ← unwrap (get_elem? w.sector_bufs (buf_ade_idx / blk_ade_cnt))
  ok (record { sector = sector; index = buf_ade_idx % blk_ade_cnt })

unfoldable pub get_in_dir : Window → ℕ → Run Place
get_in_dir w pos = do
  p ← as_ade_offset pos
  b ← as_ade_offset w.begin_pos
  delta_ade ← sub_usize p b
  get_in_buf w delta_ade

unfoldable pub len : Window → Run ℕ
len w = do
  r ← as_byte_offset w.right_pos
  l ← as_byte_offset w.left_pos
  d ← sub_usize r l
  ok (d / dentry_size)

-- what the directory says of the sectors after one, and the sector that `append` adds to its chain
pub record Sectors : Type 0 where
  pub next_sector : ℕ → Run (Option ℕ)
  pub appended : Run ℕ

-- the sector that has the current position, loaded if it is not yet: the window, and whether there is
-- such a sector
unfoldable pub load_current : Sectors → Window → ℕ → Run (Bool × Window)
load_current ss w cur_buf_idx =
    let push : ℕ → Run (Bool × Window) = λ sector. ss.next_sector sector >>= λ n.
    ok (true, record w { sector_bufs = w.sector_bufs ++ sector ∷ []; next_sector = n }) in
    let append = ss.appended >>= push in
    let missing : Run (Bool × Window) = elim w.next_sector [
      | some sector ↦ push sector
      | none ↦ if w.in_append then append else ok (false, w)
    ] in
    let loaded = assert (cur_buf_idx == length w.sector_bufs) >> missing in
    if leb (length w.sector_bufs) cur_buf_idx then loaded else ok (true, w)

unfoldable pub move_right_one : Sectors → (ℕ → ℕ → Atom) → Window → Run (Option Place × Window)
move_right_one ss disk w = buf_idx w w.right_pos >>= λ i. load_current ss w i >>= λ (there, w1).
    let moved = (do
      assert (ltb i (length w1.sector_bufs))
      right ← offset_ade w.right_pos 1
      let w2 = record w1 { right_pos = right }
      last ← get_in_dir w2 w.right_pos
      let ended = is_end (disk last.sector last.index) && not w.in_append
      ok (if ended then none else some last, w2)) in
    if there then moved else ok (none, w1)

-- the places of the entries from `pos` to the right end, `n` of them
unfoldable pub places_from : Window → ℕ → ℕ → Run (List Place)
places_from w pos zero = ok []
places_from w pos (suc n) = do
  p ← get_in_dir w pos
  next ← offset_ade pos 1
  ps ← places_from w next n
  ok (p ∷ ps)

-- `atom_iter`
unfoldable pub iter : Window → Run (List Place)
iter w = len w >>= places_from w w.left_pos

-- the entries of the disk, changed at a place
abbrev pub write_at : (ℕ → ℕ → Atom) → Place → Atom → ℕ → ℕ → Atom
write_at disk p a s i = if (s == p.sector) && (i == p.index) then a else disk s i

unfoldable pub delete_all : (ℕ → ℕ → Atom) → List Place → ℕ → ℕ → Atom
delete_all disk [] = disk
delete_all disk (p ∷ ps) = delete_all (write_at disk p (mark_unused (disk p.sector p.index))) ps

-- `delete_entry` of the group: its places, and the disk
unfoldable pub delete_entry : (ℕ → ℕ → Atom) → Window → Run (ℕ → ℕ → Atom)
delete_entry disk w = iter w >>= λ ps. ok (delete_all disk ps)

-- `can_create_any` with `is_deleted`, and `can_create`
unfoldable pub can_create_any : (ℕ → ℕ → Atom) → Window → Bool → Run Bool
can_create_any disk w is_deleted =
    get_in_buf w 0 >>= λ p. ok (is_unused (disk p.sector p.index) || is_deleted || w.in_append)

unfoldable pub can_create : (ℕ → ℕ → Atom) → Window → Bool → FatDentryData → Run Bool
can_create disk w is_deleted d = do
  any ← can_create_any disk w is_deleted
  n ← len w
  ok (any && ltb (lfn_needed d) n)

-- `get_in_buf` of the indices from `i` on, where an entry goes
unfoldable pub buf_places : Window → ℕ → ℕ → Run (List Place)
buf_places w i zero = ok []
buf_places w i (suc n) = do p ← get_in_buf w i; ps ← buf_places w (suc i) n; ok (p ∷ ps)

unfoldable pub write_all : (ℕ → ℕ → Atom) → List Place → List Atom → ℕ → ℕ → Atom
write_all disk [] as_ = disk
write_all disk (p ∷ ps) [] = disk
write_all disk (p ∷ ps) (a ∷ as_) = write_all (write_at disk p a) ps as_

abbrev pub old_at : (ℕ → ℕ → Atom) → List Place → ℕ → Atom
old_at disk ps i = elim (get_elem? ps i) [ none ↦ (λ k. 0) | some p ↦ disk p.sector p.index ]

unfoldable pub create_entry :
    (ℕ → ℕ → Atom) → Window → Bool → FatDentryData → Run ((ℕ → ℕ → Atom) × Window)
create_entry disk w is_deleted d = do
  can ← can_create disk w is_deleted d
  assert can
  ps ← buf_places w 0 (lfn_needed d + 1)
  w' ← move_left w (lfn_needed d + 1)
  ok (write_all disk ps (write_entry d (old_at disk ps)), w')

-- `mark_next`, on fuel for the entries that are left
unfoldable pub mark_next : ℕ → Sectors → (ℕ → ℕ → Atom) → Window → Run (Bool × Window)
mark_next zero ss disk w = panic
mark_next (suc fuel) ss disk w = move_right_one ss disk w >>= λ (o, w').
    let again = mark_next fuel ss disk w' in
    elim o [
      | none ↦ ok (false, w')
      | some p ↦ if is_std (disk p.sector p.index) then ok (true, w') else again
    ]

unfoldable pub leave_next : Window → Run Window
leave_next w = len w >>= move_left w
