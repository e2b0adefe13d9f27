-- ===== src/UserSpace/Fault/Defs.antt =====
-- The state that a page fault changes, and the steps of its handler.
use mankoros.Base.{
  ℕ, ◌^◌, ◌/◌, Bool, true, not, Option, none, some, List, [], ◌∷◌, ◌==◌, if◌then◌else◌, update, Run,
  ok, panic, ◌>>=◌, ◌>>◌, assert, unwrap, add_usize, sub_usize,
}
use mankoros.Address.Phys
use mankoros.Address.Virt
use mankoros.Address.Vpn
use mankoros.Frame
use mankoros.Frame.{Frames}
use mankoros.Pte
use mankoros.RangeMap
use mankoros.UserSpace.Perm.{
  UserAreaPerm, PageFaultAccessType, match_area_perm, pte_flags_of, can_access,
}
use mankoros.UserSpace.Area.{UserArea, mmap_anonymous, mmap_private, shm_area}
use mankoros.UserSpace.Manager.{Areas, take_range}

pub data PageFaultErr : Type 0 where
  no_segment : PageFaultErr
  perm_unmatch : PageFaultErr
  kernel_oom : PageFaultErr

-- `C` is what a page contains; `is_current` tells if this page table is the one in use. Which tables of the
-- two lower levels are there is told by the page number without its lowest 18 or 9 bits; `table_picks` is what
-- the frame allocator takes for the next tables. What the tables' own frames contain is in `entries`.
pub record Pages (C : Type 0) : Type 0 where
  pub mid_tables : ℕ → Bool
  pub last_tables : ℕ → Bool
  pub table_picks : List (Option ℕ)
  pub entries : ℕ → Option ℕ
  pub frames : Frames
  pub contents : ℕ → C
  pub is_current : Bool

-- `none` is `Ok(())`
abbrev pub Outcome : Type 0 → Type 0
Outcome C = Option PageFaultErr × Pages C

module _ {C : Type 0} where
  -- `alloc_table`
  unfoldable pub create_table : Pages C → Run (Pages C)
  create_table s = elim s.table_picks [
    | [] ↦ panic
    | pick ∷ picks ↦ do
      (taken, fs) ← Frame.alloc_frame s.frames pick
      elim taken [ none ↦ panic | some table ↦ ok (record s { frames = fs; table_picks = picks }) ]
  ]

  -- `get_entry_mut_or_create`: the tables that lead to a page
  unfoldable pub create_mid : Pages C → ℕ → Run (Pages C)
  create_mid s vpn =
      let created = create_table s >>= λ t.
      ok (record t { mid_tables = update t.mid_tables (vpn / 2 ^ 18) true }) in
      if s.mid_tables (vpn / 2 ^ 18) then ok s else created

  unfoldable pub create_last : Pages C → ℕ → Run (Pages C)
  create_last s vpn =
      let created = create_table s >>= λ t.
      ok (record t { last_tables = update t.last_tables (vpn / 2 ^ 9) true }) in
      if s.last_tables (vpn / 2 ^ 9) then ok s else created

  unfoldable pub create_tables : Pages C → ℕ → Run (Pages C)
  create_tables s vpn = create_mid s vpn >>= λ t. create_last t vpn

  unfoldable pub remap_page : Pages C → ℕ → ℕ → Pte.PteFlags → Run (Pages C)
  remap_page s vpn paddr flags = do
    assert (Phys.is_valid paddr)
    t ← create_tables s vpn
    ok (record t {
      entries = update t.entries vpn (some (Pte.new paddr (record flags { v = true })));
    })

  -- the last lines of the handler
  unfoldable pub map_new : Pages C → ℕ → ℕ → UserAreaPerm → Run (Outcome C)
  map_new s vpn frame perm = do
    assert (not (frame == 0))
    t ← remap_page s vpn frame (pte_flags_of perm)
    ok (none, t)

  -- a valid entry that denies the access: `pick` is what the frame allocator takes
  unfoldable pub break_cow : Pages C → ℕ → UserAreaPerm → ℕ → Option ℕ → Run (Outcome C)
  break_cow s vpn perm pte pick =
      let old = Pte.ppn pte in
      let copied : Run (Outcome C) = do
        fs ← Frame.decrease s.frames old
        free ← Frame.is_free fs old
        assert (not free)
        assert s.is_current
        (taken, gs) ← Frame.alloc_frame fs pick
        old_addr ← Phys.addr old
        elim taken [
          | none ↦ ok (some kernel_oom, record s { frames = gs })
          | some frame ↦
              map_new
                (record s { frames = gs; contents = update s.contents frame (s.contents old_addr) })
                vpn frame perm
        ]
      in do
        assert (Pte.flags pte).shared
        assert (not (Pte.flags pte).w)
        assert perm.write
        shared ← Frame.is_shared s.frames old
        old_addr ← Phys.addr old
        if shared then copied else map_new s vpn old_addr perm

  module _ {File Shm : Type 0} (zeros : C)
      (get_page : File → ℕ → Pages C → Option (ℕ × Pages C)) where
    -- no entry: the first access to the page; `get_page` is the file system's
    unfoldable pub load_page : UserArea File Shm → Pages C → ℕ → ℕ → Option ℕ → Run (Outcome C)
    load_page area s range_begin vpn pick = elim area.kind [
      | mmap_anonymous ↦ do
        (taken, fs) ← Frame.alloc_frame s.frames pick
        elim taken [
          | none ↦ ok (some kernel_oom, s)
          | some frame ↦
              map_new (record s { frames = fs; contents = update s.contents frame zeros }) vpn frame
                area.perm
        ]
      | mmap_private file offset ↦ do
        vaddr ← Virt.addr vpn
        inside ← sub_usize vaddr range_begin
        real_offset ← add_usize offset inside
        (frame, t) ← unwrap (get_page file real_offset s)
        map_new t vpn frame area.perm
      | shm_area id shm ↦ panic
    ]

    unfoldable pub page_fault :
        UserArea File Shm → Pages C → ℕ → ℕ → PageFaultAccessType → Option ℕ → Run (Outcome C)
    page_fault area s range_begin vpn access pick =
        let served : Run (Outcome C) = elim (s.entries vpn) [
          | none ↦ load_page area s range_begin vpn pick
          | some pte ↦
              if match_area_perm (Pte.flags pte) area.perm
              then ok (none, s)
              else break_cow s vpn area.perm pte pick
        ] in
        if can_access access area.perm then served else ok (some perm_unmatch, s)

    -- `UserAreaManager::page_fault`
    unfoldable pub area_fault :
        Areas File Shm → Pages C → ℕ → PageFaultAccessType → Option ℕ → Run (Outcome C)
    area_fault m s vpn access pick = do
      vaddr ← Virt.addr vpn
      elim (RangeMap.get m vaddr) [
        | none ↦ ok (some no_segment, s)
        | some (start, end, area) ↦ page_fault area s start vpn access pick
      ]

  unfoldable pub release_page : Pages C → ℕ → Run (Pages C)
  release_page s vpn = elim (s.entries vpn) [
    | none ↦ ok s
    | some pte ↦ Frame.decrease_and_try_dealloc s.frames (Pte.ppn pte) >>= λ fs.
        ok (record s { entries = update s.entries vpn none; frames = fs })
  ]

  unfoldable pub release_pages : Pages C → List ℕ → Run (Pages C)
  release_pages s [] = ok s
  release_pages s (vpn ∷ vpns) = release_page s vpn >>= λ t. release_pages t vpns

  unfoldable pub release_range : Pages C → ℕ → ℕ → Run (Pages C)
  release_range s start end = Vpn.iter_vpn start end >>= λ vpns. release_pages s vpns

  -- the closure of `unmap_range`, called for the segments of the log, which has the last one first
  unfoldable pub release_log : {File Shm : Type 0} → Pages C → Areas File Shm → Run (Pages C)
  release_log s [] = ok s
  release_log s ((start, node) ∷ log) = release_log s log >>= λ t. release_range t start node.end

  -- `UserAreaManager::unmap_range`
  unfoldable pub unmap_range :
      {File Shm : Type 0} → Areas File Shm → Pages C → ℕ → ℕ → Run (Areas File Shm × Pages C)
  unmap_range m s start end = do
    (m', log) ← take_range m start end
    t ← release_log s log
    ok (m', t)
