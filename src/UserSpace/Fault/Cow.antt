-- ===== src/UserSpace/Fault/Cow.antt =====
-- A write to a page that is shared since a fork.
use mankoros.Base.{
  ℕ, ◌-◌, ◌*◌, ◌/◌, ◌^◌, ◌<◌, ◌≡◌, ◌≢◌, refl, ◌∙◌, Bool, true, false, Option, none, some, ltb,
  update, ok, Returns, Returns-of, arith,
}
use mankoros.Address.{page_size}
use mankoros.Address.Phys
use mankoros.Frame
use mankoros.Frame.{Frames}
use mankoros.Frame.Calls.{
  HasCounter, counts, settles, ptr_ok, addr_ok, decrease_correct, alloc-settles,
}
use mankoros.Pte
use mankoros.Pte.Entry.{new_correct}
use mankoros.UserSpace.Perm.{UserAreaPerm, pte_flags_of}
use mankoros.UserSpace.Fault.Defs.{
  kernel_oom, Pages, Outcome, create_tables, create_mid, create_last, remap_page, map_new,
  break_cow,
}

-- a frame that a page table can refer to
abbrev pub IsFrame : Frames → ℕ → Type 0
IsFrame s q = HasCounter s q × (0 < q) × (q * page_size < 2 ^ 56)

-- the entry that the handler writes for a frame
abbrev pub entry_of : UserAreaPerm → ℕ → ℕ
entry_of perm q = Pte.new (q * page_size) (record (pte_flags_of perm) { v = true })

-- the flags of a user page with these permissions
abbrev pub flags_with : UserAreaPerm → Pte.PteFlags
flags_with perm = record {
  v = true;
  r = perm.read;
  w = perm.write;
  x = perm.execute;
  u = true;
  g = false;
  a = perm.read;
  d = perm.write;
  shared = false;
  rsw2 = false;
}

flags_of_perm :
    (r w x : Bool)
    → record (pte_flags_of (record { read = r; write = w; execute = x })) { v = true }
      ≡ flags_with (record { read = r; write = w; execute = x })
unfolding pte_flags_of
flags_of_perm false false false = refl
flags_of_perm false false true = refl
flags_of_perm false true false = refl
flags_of_perm false true true = refl
flags_of_perm true false false = refl
flags_of_perm true false true = refl
flags_of_perm true true false = refl
flags_of_perm true true true = refl

pub entry_correct :
    (perm : UserAreaPerm) (s : Frames) (q : ℕ)
    → IsFrame s q
    → (Pte.paddr (entry_of perm q) ≡ q * page_size)
      × (Pte.flags (entry_of perm q) ≡ flags_with perm)
entry_correct perm s q (c, p, h) =
    let (a, b, e) =
      new_correct (q * page_size) (record (pte_flags_of perm) { v = true }) h (omega arith) in
    (b, e ∙ flags_of_perm perm.read perm.write perm.execute)

not_free :
    (f : Frames) (p n : ℕ) → HasCounter f p → 0 < n → Frame.is_free (counts f p n) p ≡ ok false
unfolding Frame.is_free Frame.get_ref_cnt
not_free f p n h q = ground (arith, ptr_ok (counts f p n) p h)

is_shared-cnt :
    (f : Frames) (p : ℕ) → HasCounter f p → Frame.is_shared f p ≡ ok (ltb 1 (f.ref_cnt p))
unfolding Frame.is_shared Frame.get_ref_cnt
is_shared-cnt f p h = ground (arith, ptr_ok f p h)

module _ {C : Type 0} where
  -- the tables that lead to the page are there
  abbrev pub HasTables : Pages C → ℕ → Type 0
  HasTables s vpn = (s.mid_tables (vpn / 2 ^ 18) ≡ true) × (s.last_tables (vpn / 2 ^ 9) ≡ true)

  pub map_new_ok :
      (s : Pages C) (g : Frames) (vpn q : ℕ) (perm : UserAreaPerm)
      → IsFrame g q
      → HasTables s vpn
      → map_new s vpn (q * page_size) perm
        ≡ ok (none, record s { entries = update s.entries vpn (some (entry_of perm q)) })
  unfolding map_new remap_page Phys.is_valid create_tables create_mid create_last
  map_new_ok s g vpn q perm h (mid, last) = ground (arith, mid, last)

  -- the handled fault: the page is mapped to the frame `q` with the permissions, and no other page changes
  abbrev pub IsMapped : Pages C → ℕ → ℕ → UserAreaPerm → Outcome C → Type 0
  IsMapped s vpn q perm (r, t) =
      (r ≡ none)
      × ((e : ℕ) × (t.entries vpn ≡ some e)
          × (Pte.paddr e ≡ q * page_size)
          × (Pte.flags e ≡ flags_with perm))
      × ((v : ℕ) → v ≢ vpn → t.entries v ≡ s.entries v)

  pub mapped :
      (s t : Pages C) (g : Frames) (vpn q : ℕ) (perm : UserAreaPerm)
      → IsFrame g q
      → ((v : ℕ) → t.entries v ≡ s.entries v)
      → IsMapped s vpn q perm
          (none, record t { entries = update t.entries vpn (some (entry_of perm q)) })
  mapped s t g vpn q perm h same =
      let (a, b) = entry_correct perm g q h in
      (refl, (entry_of perm q, ground arith, a, b), λ v ne. ground (arith, same v, ne))

  -- the fault of a write to a shared page
  abbrev pub IsCow : Pages C → UserAreaPerm → ℕ → Type 0
  IsCow s perm pte =
      ((Pte.flags pte).shared ≡ true)
      × ((Pte.flags pte).w ≡ false)
      × (perm.write ≡ true)
      × HasCounter s.frames (Pte.ppn pte)
      × (s.frames.ref_cnt (Pte.ppn pte) < 2 ^ 32)

  -- At an entry marked as shared and not writable, in an area that may be written, to a frame with
  -- more than one reference, with the table in use, the tables that lead to the entry there, and
  -- the allocator taking the unused frame `q`, `break_cow` does not panic: the page is mapped to
  -- `q` as a user page with exactly the permissions of the area, neither shared nor global, and
  -- contains what the old frame does, the old frame loses one reference, `q` has one, and no other
  -- count or contents changes.
  pub copy_correct :
      (s : Pages C) (vpn pte q : ℕ) (perm : UserAreaPerm)
      → IsCow s perm pte
      → 1 < s.frames.ref_cnt (Pte.ppn pte)
      → s.is_current ≡ true
      → HasTables s vpn
      → IsFrame s.frames q
      → s.frames.ref_cnt q ≡ 0
      → Returns
          (λ o.
            IsMapped s vpn q perm o
            × (o.1.frames
                ≡ settles (counts s.frames (Pte.ppn pte) (s.frames.ref_cnt (Pte.ppn pte) - 1)) q 1)
            × (o.1.contents
                ≡ update s.contents (q * page_size) (s.contents (Pte.ppn pte * page_size))))
          (break_cow s vpn perm pte (some (q * page_size)))
  unfolding break_cow
  copy_correct s vpn pte q perm (marked, denied, allowed, c, small) more current there frame
        unused =
      let old = Pte.ppn pte in
      let n = s.frames.ref_cnt old in
      let fs = counts s.frames old (n - 1) in
      let gs = settles fs q 1 in
      let t : Pages C = record s {
        frames = gs;
        contents = update s.contents (q * page_size) (s.contents (old * page_size));
      } in
      let out = record t { entries = update s.entries vpn (some (entry_of perm q)) } in
      let lowered = (decrease_correct s.frames old c small).1 (omega arith) in
      let taken = alloc-settles fs q frame.0 (ground arith) in
      let alive = not_free s.frames old (n - 1) c (omega arith) in
      Returns-of {a = (none, out)}
        (ground (
          arith,
          is_shared-cnt s.frames old c,
          lowered,
          alive,
          addr_ok s.frames old c,
          taken,
          map_new_ok t s.frames vpn q perm frame there,
        ))
        (mapped s t s.frames vpn q perm frame (λ v. refl), refl, refl)

  -- At an entry marked as shared and not writable, in an area that may be written, to a frame with
  -- one reference left, `break_cow` keeps the frame, its contents and every count, and maps the
  -- page to it with the permissions of the area.
  pub reuse_correct :
      (s : Pages C) (vpn pte : ℕ) (perm : UserAreaPerm) (pick : Option ℕ)
      → IsCow s perm pte
      → s.frames.ref_cnt (Pte.ppn pte) ≡ 1
      → IsFrame s.frames (Pte.ppn pte)
      → HasTables s vpn
      → Returns
          (λ o.
            IsMapped s vpn (Pte.ppn pte) perm o
            × (o.1.frames ≡ s.frames)
            × (o.1.contents ≡ s.contents))
          (break_cow s vpn perm pte pick)
  unfolding break_cow
  reuse_correct s vpn pte perm pick (marked, denied, allowed, c, small) one frame there =
      let old = Pte.ppn pte in
      Returns-of
        {a = (none, record s { entries = update s.entries vpn (some (entry_of perm old)) })}
        (ground (
          arith,
          is_shared-cnt s.frames old c,
          addr_ok s.frames old c,
          map_new_ok s s.frames vpn old perm frame there,
        ))
        (mapped s s s.frames vpn old perm frame (λ v. refl), refl, refl)

  -- Where the allocator has no frame left, `break_cow` at an entry marked as shared and not
  -- writable, in an area that may be written, to a frame with more than one reference, with the
  -- table in use, ends with KernelOOM: the entry still refers to the old frame, and the frame has
  -- lost a reference.
  pub copy-loses_reference :
      (s : Pages C) (vpn pte : ℕ) (perm : UserAreaPerm)
      → IsCow s perm pte
      → 1 < s.frames.ref_cnt (Pte.ppn pte)
      → s.is_current ≡ true
      → break_cow s vpn perm pte none
        ≡ ok (
          some kernel_oom,
          record s { frames = counts s.frames (Pte.ppn pte) (s.frames.ref_cnt (Pte.ppn pte) - 1) },
        )
  unfolding break_cow Frame.alloc_frame
  copy-loses_reference s vpn pte perm (marked, denied, allowed, c, small) more current =
      let old = Pte.ppn pte in
      ground (
        arith,
        is_shared-cnt s.frames old c,
        (decrease_correct s.frames old c small).1 (omega arith),
        not_free s.frames old (s.frames.ref_cnt old - 1) c (omega arith),
        addr_ok s.frames old c,
      )
