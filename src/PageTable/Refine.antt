-- ===== src/PageTable/Refine.antt =====
-- The operations on one page implement a map from page numbers to entries.
use mankoros.Base.{
  ℕ, ◌/◌, ◌%◌, ◌^◌, ◌<◌, ◌≡◌, refl, sym, ap, ◌∙◌, Bool, true, false, update, Option, none, some,
  arith, inl, inr, Bool-cases, Option-cases, ok, panic, Run, ◌>>=◌, ◌>>◌, assert, unwrap, mul_usize,
  Returns-inv,
}
use mankoros.Address.{page_size}
use mankoros.Address.Phys
use mankoros.Address.Virt
use mankoros.Pte
use mankoros.Pte.{PteFlags}
use mankoros.Pte.Entry.{new_correct}
use mankoros.PageTable.Defs.{
  PageTable, Memory, Slot, read, write, new_pte, p1_index, slot_1, map_page, remap_page, unmap_page,
  get_pte_copied_from_vpn,
}
use mankoros.PageTable.Tree.{
  Place, IsTree, bind, walk, lookup-walk, valid_in, lookup, empty-valid, IsUser,
}
use mankoros.PageTable.Grow.{walk-place}
use mankoros.PageTable.Walk.{get_entry_mut_opt-lookup, get_entry_mut-walk}
use mankoros.PageTable.Create.{Found, HasTwo, get_entry_mut_or_create-Found}
use mankoros.PageTable.Entry.{if_valid, write-IsTree, lookup-write}

-- what the users of a page table see: from page numbers to entries
abbrev pub View : Type 0
View = ℕ → Option ℕ

-- an operation on a page: its address, and the frame and the permissions for it
pub data Op : Type 0 where
  mapped : ℕ → ℕ → PteFlags → Op
  remapped : ℕ → ℕ → PteFlags → Op
  unmapped : ℕ → Op
  looked_up : ℕ → Op

abbrev pub run_op : PageTable → Memory → Op → Run (Option ℕ × PageTable × Memory)
run_op t m (mapped v paddr flags) = map_page t m v paddr flags >>= λ (t', m'). ok (none, t', m')
run_op t m (remapped v paddr flags) = remap_page t m v paddr flags >>= λ (t', m'). ok (none, t', m')
run_op t m (unmapped v) = unmap_page t m v >>= λ (paddr, m'). ok (some paddr, t, m')
run_op t m (looked_up v) = get_pte_copied_from_vpn t m (v / page_size) >>= λ e. ok (e, t, m)

abbrev pub is_none : Option ℕ → Bool
is_none none = true
is_none (some e) = false

-- the same on the map
abbrev pub spec_op : View → Op → Run (Option ℕ × View)
spec_op f (mapped v paddr flags) =
    assert (is_none (f (v / page_size)))
    >> ok (none, update f (v / page_size) (some (new_pte paddr flags)))
spec_op f (remapped v paddr flags) =
    ok (none, update f (v / page_size) (some (new_pte paddr flags)))
spec_op f (unmapped v) =
    unwrap (f (v / page_size)) >>= λ e. ok (some (Pte.paddr e), update f (v / page_size) none)
spec_op f (looked_up v) = ok (f (v / page_size), f)

-- a frame that an entry has room for
abbrev pub IsFrameAddr : ℕ → Type 0
IsFrameAddr paddr = (paddr < 2 ^ 56) × (paddr % page_size ≡ 0)

-- user addresses of pages, and frames
abbrev pub IsOp : Op → Type 0
IsOp (mapped v paddr flags) = IsUser v × (v % page_size ≡ 0) × IsFrameAddr paddr
IsOp (remapped v paddr flags) = IsUser v × (v % page_size ≡ 0) × IsFrameAddr paddr
IsOp (unmapped v) = IsUser v × (v % page_size ≡ 0)
IsOp (looked_up v) = IsUser v × (v % page_size ≡ 0)

-- the tables say of each user address what the map says of its page
abbrev pub Implements : PageTable → Memory → (ℕ → Option Place) → View → Type 0
Implements t m place f =
    IsTree m t.root_paddr place × ((v : ℕ) → IsUser v → lookup m t.root_paddr v ≡ f (v / page_size))

-- both calls panic, or both return, the same value and states that agree
pub data Agree : Run (Option ℕ × PageTable × Memory) → Run (Option ℕ × View) → Type 0 where
  both_panic : Agree panic panic
  both_ok :
      {o : Option ℕ} {t : PageTable} {m : Memory} {f : View} (place : ℕ → Option Place)
      → Implements t m place f
      → Agree (ok (o, t, m)) (ok (o, f))

addr_back : (v : ℕ) → IsUser v → v % page_size ≡ 0 → Virt.addr (v / page_size) ≡ ok v
unfolding Virt.addr mul_usize
addr_back v u al = ground arith

if_valid-none : (e : ℕ) → if_valid e ≡ none → Pte.is_valid e ≡ false
if_valid-none e h = ground arith

if_valid-some : (e b : ℕ) → if_valid e ≡ some b → (Pte.is_valid e ≡ true) × (e ≡ b)
if_valid-some e b h = ground arith

frame_ok : (paddr : ℕ) → IsFrameAddr paddr → Phys.is_valid paddr ≡ true
unfolding Phys.is_valid
frame_ok paddr h = ground arith

new_valid :
    (paddr : ℕ) (flags : PteFlags)
    → IsFrameAddr paddr
    → if_valid (new_pte paddr flags) ≡ some (new_pte paddr flags)
unfolding Pte.is_valid
new_valid paddr flags (h, al) =
    let (a, b, c) = new_correct paddr (record flags { v = true }) h al in
    let v : Pte.is_valid (new_pte paddr flags) ≡ true = ap (λ g. g.v) c in rw v refl

module _ (t : PageTable) (m : Memory) (place : ℕ → Option Place) (f : View)
    (imp : Implements t m place f) where
  after_write :
      (v e : ℕ) (o o' : Option ℕ) (s : Slot) (t' : PageTable) (m' : Memory)
      → IsUser v
      → Found t m v s t' m'
      → if_valid e ≡ o'
      → Agree (ok (o, t', write m' s e)) (ok (o, update f (v / page_size) o'))
  after_write v e o o' s t' m' u a valid = both_ok a.place' (
    write-IsTree m' t'.root_paddr a.place' a.tree v u s e a.at,
    λ w h.
        rw
          (
            lookup-write m' t'.root_paddr a.place' a.tree v u s e a.at w h a.index_same a.leads,
            a.same w h,
            imp.1 w h,
            valid,
          )
          refl,
  )

  lookup-Found :
      (v : ℕ) (s : Slot) (t' : PageTable) (m' : Memory)
      → IsUser v
      → Found t m v s t' m'
      → if_valid (read m' s) ≡ f (v / page_size)
  lookup-Found v s t' m' u a =
      let e = sym (lookup-walk m' t'.root_paddr v) ∙ a.same v u ∙ imp.1 v u in
      let here : if_valid (read m' s) ≡ bind (walk m' t'.root_paddr v) (valid_in m' v) =
        rw (a.leads, sym a.index_same) refl in
      here ∙ e

  map_page-Agree :
      (v paddr : ℕ) (flags : PteFlags)
      → IsOp (mapped v paddr flags)
      → HasTwo m place
      → Agree (run_op t m (mapped v paddr flags)) (spec_op f (mapped v paddr flags))
  unfolding map_page
  map_page-Agree v paddr flags (u, al, fr) two =
      let ((s, t', m'), e, a) =
        Returns-inv (get_entry_mut_or_create-Found t m place imp.0 two v u) in
      let l = lookup-Found v s t' m' u a in
      rw (frame_ok paddr fr, e)
        (elim (Option-cases (f (v / page_size))) [
          | inl z ↦
              let gone = if_valid-none (read m' s) (l ∙ z) in
              rw (gone, z)
                (after_write v (new_pte paddr flags) none _ s t' m' u a (new_valid paddr flags fr))
          | inr (b, z) ↦ let here = if_valid-some (read m' s) b (l ∙ z) in rw (here.0, z) both_panic
        ])

  remap_page-Agree :
      (v paddr : ℕ) (flags : PteFlags)
      → IsOp (remapped v paddr flags)
      → HasTwo m place
      → Agree (run_op t m (remapped v paddr flags)) (spec_op f (remapped v paddr flags))
  unfolding remap_page
  remap_page-Agree v paddr flags (u, al, fr) two =
      let ((s, t', m'), e, a) =
        Returns-inv (get_entry_mut_or_create-Found t m place imp.0 two v u) in
      rw (frame_ok paddr fr, e)
        (after_write v (new_pte paddr flags) none _ s t' m' u a (new_valid paddr flags fr))

  get_pte-Agree :
      (v : ℕ) → IsOp (looked_up v) → Agree (run_op t m (looked_up v)) (spec_op f (looked_up v))
  unfolding get_pte_copied_from_vpn
  get_pte-Agree v (u, al) =
      rw
        (
          addr_back v u al,
          get_entry_mut_opt-lookup t m place imp.0 v u,
          sym (imp.1 v u),
          lookup-walk m t.root_paddr v,
        )
        (elim (Option-cases (walk m t.root_paddr v)) [
          | inl z ↦ rw z (both_ok place imp)
          | inr (c, z) ↦ rw z (elim (Bool-cases (Pte.is_valid (m.entries c (p1_index v)))) [
            | inl h ↦ rw h (both_ok place imp)
            | inr h ↦ rw h (both_ok place imp)
          ])
        ])

  slot-Found : (v c : ℕ) → IsUser v → walk m t.root_paddr v ≡ some c → Found t m v (slot_1 c v) t m
  slot-Found v c u z = record {
    place' = place;
    tree = imp.0;
    at = elim (walk-place m t.root_paddr place imp.0 v u) [
      | inl none_there ↦ absurd (cc (none_there, z))
      | inr (d, e, p) ↦ let same : c ≡ d = cc (z, e) in rw same p
    ];
    index_same = refl;
    leads = z;
    same = λ w h. refl;
    root_same = refl;
  }

  unmap_page-Agree :
      (v : ℕ) → IsOp (unmapped v) → Agree (run_op t m (unmapped v)) (spec_op f (unmapped v))
  unfolding unmap_page Pte.clear
  unmap_page-Agree v (u, al) = elim (get_entry_mut-walk t m v) [
    | inl (z, e) ↦
        let gone : f (v / page_size) ≡ none =
          sym (imp.1 v u) ∙ lookup-walk m t.root_paddr v ∙ rw z refl in
        rw (e, gone) both_panic
    | inr (c, z, e) ↦
        let a = slot-Found v c u z in
        let l = lookup-Found v (slot_1 c v) t m u a in
        rw e (elim (Option-cases (f (v / page_size))) [
          | inl gone ↦ rw (if_valid-none (read m (slot_1 c v)) (l ∙ gone), gone) both_panic
          | inr (b, here) ↦
              let (valid, same) = if_valid-some (read m (slot_1 c v)) b (l ∙ here) in
              rw (valid, here, same)
                (after_write v Pte.empty (some (Pte.paddr b)) none (slot_1 c v) t m u a
                  (rw empty-valid refl))
        ])
  ]

-- Where the tables in use stand at their places in the tree and say of each user address what the
-- map from page numbers to entries says, and the allocator has two unused frames, mapping,
-- remapping, unmapping or looking up a page of the user space panics exactly where it does on the
-- map, and else gives the same value and tables that say what the changed map does.
pub operations-Agree :
    (t : PageTable) (m : Memory) (place : ℕ → Option Place) (f : View) (op : Op)
    → Implements t m place f
    → IsOp op
    → HasTwo m place
    → Agree (run_op t m op) (spec_op f op)
operations-Agree t m place f (mapped v paddr flags) imp h two =
    map_page-Agree t m place f imp v paddr flags h two
operations-Agree t m place f (remapped v paddr flags) imp h two =
    remap_page-Agree t m place f imp v paddr flags h two
operations-Agree t m place f (unmapped v) imp h two = unmap_page-Agree t m place f imp v h
operations-Agree t m place f (looked_up v) imp h two = get_pte-Agree t m place f imp v h
