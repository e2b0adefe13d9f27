-- ===== src/UserSpace/Fault/Lazy.antt =====
-- The first access to a page.
use mankoros.Base.{
  ℕ, ◌*◌, ◌<◌, ◌≡◌, refl, true, Option, none, some, update, ok, mul_usize-ok, usize_mod, Returns,
  Returns-of, arith,
}
use mankoros.Address.{page_size}
use mankoros.Address.Virt
use mankoros.Frame
use mankoros.Frame.Calls.{settles, alloc-settles}
use mankoros.RangeMap
use mankoros.UserSpace.Perm.{PageFaultAccessType, can_access}
use mankoros.UserSpace.Area.{UserArea, mmap_anonymous}
use mankoros.UserSpace.Manager.{Areas}
use mankoros.UserSpace.Fault.Defs.{kernel_oom, Pages, load_page, page_fault, area_fault}
use mankoros.UserSpace.Fault.Cow.{IsFrame, HasTables, IsMapped, entry_of, map_new_ok, mapped}

module _ {C File Shm : Type 0} (zeros : C)
    (get_page : File → ℕ → Pages C → Option (ℕ × Pages C)) where
  -- The first access that its permissions allow to a page of an anonymous area, with the allocator
  -- taking an unused frame, maps the page to it, full of zeros, with the permissions of the area;
  -- with no frame left it answers KernelOOM and changes nothing.
  pub load_anonymous_correct :
      (m : Areas File Shm) (s : Pages C) (start end vpn q : ℕ) (area : UserArea File Shm)
      (access : PageFaultAccessType)
      → RangeMap.get m (vpn * page_size) ≡ some (start, end, area)
      → vpn * page_size < usize_mod
      → can_access access area.perm ≡ true
      → s.entries vpn ≡ none
      → area.kind ≡ mmap_anonymous
      → IsFrame s.frames q
      → HasTables s vpn
      → s.frames.ref_cnt q ≡ 0
      → (area_fault zeros get_page m s vpn access none ≡ ok (some kernel_oom, s))
        × Returns
            (λ o.
              IsMapped s vpn q area.perm o
              × (o.1.frames ≡ settles s.frames q 1)
              × (o.1.contents ≡ update s.contents (q * page_size) zeros))
            (area_fault zeros get_page m s vpn access (some (q * page_size)))
  unfolding area_fault page_fault load_page Virt.addr Frame.alloc_frame
  load_anonymous_correct m s start end vpn q area access found fits may fresh kind frame there
        unused =
      let t : Pages C = record s {
        frames = settles s.frames q 1;
        contents = update s.contents (q * page_size) zeros;
      } in
      (
        ground (arith, found, may, fresh, kind, mul_usize-ok vpn page_size fits),
        Returns-of
            {a = (none, record t { entries = update s.entries vpn (some (entry_of area.perm q)) })}
            (ground (
              arith,
              found,
              may,
              fresh,
              kind,
              mul_usize-ok vpn page_size fits,
              alloc-settles s.frames q frame.0 unused,
              map_new_ok t s.frames vpn q area.perm frame there,
            ))
            (mapped s t s.frames vpn q area.perm frame (λ v. refl), refl, refl),
      )
