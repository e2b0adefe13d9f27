-- ===== src/PageTable/Defs.antt =====
-- src/memory/pagetable/pagetable.rs: PageTable over the memory that its tables lie in. A table is the
-- physical address of its frame, and a slot is an entry of a table; the kernel's window onto the
-- physical memory is one to one, so a table is accessed by this address.
use mankoros.Base.{
  ℕ, zero, suc, ◌+◌, ◌/◌, ◌%◌, ◌^◌, Bool, true, false, not, Option, none, some, List, [], ◌∷◌, ◌++◌,
  ltb, if◌then◌else◌, update, Run, ok, panic, ◌>>=◌, ◌>>◌, assert, unwrap, sub_usize,
}
use mankoros.Address.{page_size}
use mankoros.Address.Virt
use mankoros.Address.Phys
use mankoros.Frame
use mankoros.Frame.{Frames}
use mankoros.Pte
use mankoros.Pte.{PteFlags, no_flags}

abbrev pub entry_count : ℕ
entry_count = 512

unfoldable pub p3_index : ℕ → ℕ
p3_index vaddr = vaddr / 2 ^ (12 + 18) % entry_count

unfoldable pub p2_index : ℕ → ℕ
p2_index vaddr = vaddr / 2 ^ (12 + 9) % entry_count

unfoldable pub p1_index : ℕ → ℕ
p1_index vaddr = vaddr / 2 ^ 12 % entry_count

pub record PageTable : Type 0 where
  pub root_paddr : ℕ
  pub intrm_tables : List ℕ
  pub no_alloc : Bool

-- the contents of the tables, the frames, and the frames that the allocator takes from now on
pub record Memory : Type 0 where
  pub entries : ℕ → ℕ → ℕ
  pub frames : Frames
  pub picks : List ℕ

-- the entry with an index in a table
pub record Slot : Type 0 where
  pub table : ℕ
  pub index : ℕ

abbrev pub read : Memory → Slot → ℕ
read m s = m.entries s.table s.index

abbrev pub write : Memory → Slot → ℕ → Memory
write m s e = record m { entries = update m.entries s.table (update (m.entries s.table) s.index e) }

abbrev pub first : List ℕ → Option ℕ
first [] = none
first (p ∷ ps) = some p

abbrev pub rest : List ℕ → List ℕ
rest [] = []
rest (p ∷ ps) = ps

unfoldable pub alloc_table : Memory → Run (ℕ × Memory)
alloc_table m = Frame.alloc_frame m.frames (first m.picks) >>= λ (got, fs). unwrap got >>= λ paddr.
    ok (
      paddr,
      record { entries = update m.entries paddr (λ _. 0); frames = fs; picks = rest m.picks },
    )

unfoldable pub new : Memory → Run (PageTable × Memory)
new m = alloc_table m >>= λ (root_paddr, m').
    ok (record { root_paddr = root_paddr; intrm_tables = root_paddr ∷ []; no_alloc = false }, m')

unfoldable pub new_with_kernel_seg : Memory → ℕ → Run (PageTable × Memory)
new_with_kernel_seg m boot_root_paddr = alloc_table m >>= λ (root_paddr, m'). ok (
  record { root_paddr = root_paddr; intrm_tables = root_paddr ∷ []; no_alloc = false },
  record m' { entries = update m'.entries root_paddr (m'.entries boot_root_paddr) },
)

unfoldable pub new_with_paddr : ℕ → PageTable
new_with_paddr paddr = record { root_paddr = paddr; intrm_tables = paddr ∷ []; no_alloc = false }

unfoldable pub new_with_paddr_no_heap_alloc : ℕ → PageTable
new_with_paddr_no_heap_alloc paddr = record {
  root_paddr = paddr;
  intrm_tables = [];
  no_alloc = true;
}

-- the entries from index 0 to `n - 1` of a table, in order
unfoldable pub clear_entries : Memory → ℕ → ℕ → Memory
clear_entries m table zero = m
clear_entries m table (suc n) =
    write (clear_entries m table n) (record { table = table; index = n }) Pte.empty

unfoldable pub unmap_user_space : PageTable → Memory → Memory
unmap_user_space t m = clear_entries m t.root_paddr (entry_count / 2)

unfoldable pub next_table_mut_opt : ℕ → Run (Option ℕ)
next_table_mut_opt pte =
    let found = assert (Pte.is_directory pte) >> ok (some (Pte.paddr pte)) in
    if Pte.is_valid pte then found else ok none

unfoldable pub next_table_mut : ℕ → Run ℕ
next_table_mut pte = assert (Pte.is_valid pte) >> ok (Pte.paddr pte)

-- the entry of a directory
abbrev pub directory : ℕ → ℕ
directory paddr = Pte.new paddr (record no_flags { v = true })

unfoldable pub next_table_mut_or_create : PageTable → Memory → Slot → Run (ℕ × PageTable × Memory)
unfolding next_table_mut
next_table_mut_or_create t m pte =
    let created = alloc_table m >>= λ (paddr, m'). ok (
      paddr,
      if t.no_alloc then t else record t { intrm_tables = t.intrm_tables ++ paddr ∷ [] },
      write m' pte (directory paddr),
    ) in
    let present = next_table_mut (read m pte) >>= λ paddr. ok (paddr, t, m) in
    if not (Pte.is_valid (read m pte)) then created else present

abbrev pub slot_3 : PageTable → ℕ → Slot
slot_3 t vaddr = record { table = t.root_paddr; index = p3_index vaddr }

abbrev pub slot_2 : ℕ → ℕ → Slot
slot_2 p2 vaddr = record { table = p2; index = p2_index vaddr }

abbrev pub slot_1 : ℕ → ℕ → Slot
slot_1 p1 vaddr = record { table = p1; index = p1_index vaddr }

-- `?` on an option
abbrev pub and_then : {A B : Type 0} → Option A → (A → Run (Option B)) → Run (Option B)
and_then none f = ok none
and_then (some a) f = f a

unfoldable pub get_entry_mut_opt : PageTable → Memory → ℕ → Run (Option Slot)
unfolding next_table_mut_opt
get_entry_mut_opt t m vaddr = do
  o2 ← next_table_mut_opt (read m (slot_3 t vaddr))
  and_then o2 (λ p2. next_table_mut_opt (read m (slot_2 p2 vaddr)) >>= λ o1.
      and_then o1 (λ p1.
        ok (if Pte.is_valid (read m (slot_1 p1 vaddr)) then some (slot_1 p1 vaddr) else none)))

unfoldable pub get_entry_mut : PageTable → Memory → ℕ → Run Slot
unfolding next_table_mut
get_entry_mut t m vaddr = do
  p2 ← next_table_mut (read m (slot_3 t vaddr))
  p1 ← next_table_mut (read m (slot_2 p2 vaddr))
  ok (slot_1 p1 vaddr)

unfoldable pub get_entry_mut_or_create : PageTable → Memory → ℕ → Run (Slot × PageTable × Memory)
unfolding next_table_mut_or_create
get_entry_mut_or_create t m vaddr =
    next_table_mut_or_create t m (slot_3 t vaddr) >>= λ (p2, t2, m2).
    next_table_mut_or_create t2 m2 (slot_2 p2 vaddr) >>= λ (p1, t1, m1).
    ok (slot_1 p1 vaddr, t1, m1)

-- `PageTableEntry::new(paddr, PTEFlags::V | flags)`
abbrev pub new_pte : ℕ → PteFlags → ℕ
new_pte paddr flags = Pte.new paddr (record flags { v = true })

unfoldable pub map_page : PageTable → Memory → ℕ → ℕ → PteFlags → Run (PageTable × Memory)
unfolding get_entry_mut_or_create
map_page t m vaddr paddr flags =
    assert (Phys.is_valid paddr)
    >> (get_entry_mut_or_create t m vaddr >>= λ (entry, t', m').
        assert (not (Pte.is_valid (read m' entry)))
        >> ok (t', write m' entry (new_pte paddr flags)))

unfoldable pub remap_page : PageTable → Memory → ℕ → ℕ → PteFlags → Run (PageTable × Memory)
unfolding get_entry_mut_or_create
remap_page t m vaddr paddr flags =
    assert (Phys.is_valid paddr)
    >> (get_entry_mut_or_create t m vaddr >>= λ (entry, t', m').
        ok (t', write m' entry (new_pte paddr flags)))

unfoldable pub unmap_page : PageTable → Memory → ℕ → Run (ℕ × Memory)
unfolding get_entry_mut
unmap_page t m vaddr = do
  entry ← get_entry_mut t m vaddr
  let paddr = Pte.paddr (read m entry)
  assert (Pte.is_valid (read m entry))
  ok (paddr, write m entry (Pte.clear (read m entry)))

-- `while size > 0`, with fuel for one page each
unfoldable pub map_region_loop :
    ℕ → PageTable → Memory → ℕ → ℕ → ℕ → PteFlags → Run (PageTable × Memory)
unfolding map_page
map_region_loop zero t m vaddr paddr size flags = panic
map_region_loop (suc fuel) t m vaddr paddr size flags =
    let again = map_page t m vaddr paddr flags >>= λ (t', m'). Virt.next_page vaddr >>= λ v.
    Phys.next_page paddr >>= λ p.
    sub_usize size page_size >>= λ s. map_region_loop fuel t' m' v p s flags in
    if ltb 0 size then again else ok (t, m)

unfoldable pub map_region : PageTable → Memory → ℕ → ℕ → ℕ → PteFlags → Run (PageTable × Memory)
unfolding map_region_loop
map_region t m vaddr paddr size flags =
    map_region_loop (size / page_size + 2) t m vaddr paddr size flags

unfoldable pub unmap_region_loop : ℕ → PageTable → Memory → ℕ → ℕ → Run Memory
unfolding unmap_page
unmap_region_loop zero t m vaddr size = panic
unmap_region_loop (suc fuel) t m vaddr size =
    let again = unmap_page t m vaddr >>= λ (_, m'). Virt.next_page vaddr >>= λ v.
    sub_usize size page_size >>= λ s. unmap_region_loop fuel t m' v s in
    if ltb 0 size then again else ok m

unfoldable pub unmap_region : PageTable → Memory → ℕ → ℕ → Run Memory
unfolding unmap_region_loop
unmap_region t m vaddr size = unmap_region_loop (size / page_size + 2) t m vaddr size

unfoldable pub get_pte_copied_from_vpn : PageTable → Memory → ℕ → Run (Option ℕ)
unfolding get_entry_mut_opt
get_pte_copied_from_vpn t m vpn = Virt.addr vpn >>= λ vaddr.
    get_entry_mut_opt t m vaddr >>= λ o. and_then o (λ entry. ok (some (read m entry)))

unfoldable pub get_paddr_from_vaddr : PageTable → Memory → ℕ → Run ℕ
unfolding get_entry_mut
get_paddr_from_vaddr t m vaddr =
    get_entry_mut t m vaddr >>= λ entry. ok (Pte.paddr (read m entry) + Virt.page_offset vaddr)
