-- ===== src/Pte/Entry.antt =====
-- What an entry holds, and what each update leaves of it, src/memory/pagetable/pte.rs.
use mankoros.Base.{
  inl, inr, ◌⊎◌, Bool-cases, ℕ, ◌/◌, ◌%◌, ◌^◌, ◌<◌, ◌≡◌, sym, ◌∙◌, ap, refl, true, false, ok, panic,
  Returns, returns, Returns-of, arith,
}
use mankoros.Pte.Defs.{
  PteFlags, new, ppn, paddr, flags, shared, writable, is_valid, set_writable, clear_writable,
  set_user, clear_user, set_shared, clear_shared, become_shared, become_unique, map_frame,
}
use mankoros.Pte.Bits.{
  pack, flags-pack, ppn-pack, pack-flags, set_writable-pack, clear_writable-pack, set_user-pack,
  clear_user-pack, set_shared-pack, clear_shared-pack,
}

-- an entry holds this frame and these flags
abbrev pub Holds : ℕ → PteFlags → ℕ → Type 0
Holds pa f n = (ppn n ≡ pa / 4096) × (paddr n ≡ pa) × (flags n ≡ f)

new-pack : (pa : ℕ) (f : PteFlags) → pa < 2 ^ 56 → pa % 4096 ≡ 0 → new pa f ≡ pack (pa / 4096) f
unfolding new pack
new-pack pa f h aligned = omega arith

-- An entry made of the address of a frame, with less than 56 bits, and of flags holds this page
-- number, this address and these flags.
pub new_correct : (pa : ℕ) (f : PteFlags) → pa < 2 ^ 56 → pa % 4096 ≡ 0 → Holds pa f (new pa f)
unfolding paddr
new_correct pa f h aligned =
    let n = ppn-pack (pa / 4096) f in
    rw (new-pack pa f h aligned) (omega (arith, n), omega (arith, n), flags-pack (pa / 4096) f)

-- Mapping a frame of less than 56 bits panics at a valid entry, and else gives an entry that is
-- valid, accessed and dirty, with the permissions asked for, at this frame.
pub map_frame_correct :
    (bits pa : ℕ) (perm : PteFlags)
    → pa < 2 ^ 56
    → pa % 4096 ≡ 0
    → ((is_valid bits ≡ true) × (map_frame bits perm pa ≡ panic))
      ⊎ ((is_valid bits ≡ false)
          × Returns
              (Holds pa (record perm { d = true; a = true; v = true }))
              (map_frame bits perm pa))
unfolding map_frame
map_frame_correct bits pa perm h aligned = elim (Bool-cases (is_valid bits)) [
  | inl v ↦ inl (v, rw v refl)
  | inr v ↦ inr (v, rw v (returns (new_correct pa _ h aligned)))
]

-- the update changes the flags so, and the frame stays
abbrev pub Updates : (PteFlags → PteFlags) → ℕ → ℕ → Type 0
Updates f n n' = (flags n' ≡ f (flags n)) × (ppn n' ≡ ppn n)

Updates-pack :
    (op : ℕ → ℕ) (f : PteFlags → PteFlags)
    → ((hi : ℕ) (g : PteFlags) → op (pack hi g) ≡ pack hi (f g))
    → (n : ℕ) → Updates f n (op n)
Updates-pack op f step n =
    let e : op n ≡ pack (n / 1024) (f (flags n)) =
      ap op (sym (pack-flags n)) ∙ step (n / 1024) (flags n) in
    rw e (
      flags-pack (n / 1024) _,
      ppn-pack (n / 1024) _ ∙ sym (ppn-pack (n / 1024) (flags n)) ∙ ap ppn (pack-flags n),
    )

cleared :
    (n : ℕ)
    → (flags (clear_shared n) ≡ record (flags n) { shared = false })
      × (ppn (clear_shared n) ≡ ppn n % 64)
cleared n =
    let e : clear_shared n ≡ pack (n / 1024 % 64) (record (flags n) { shared = false }) =
      ap clear_shared (sym (pack-flags n)) ∙ clear_shared-pack (n / 1024) (flags n) in
    let p : ppn n ≡ n / 1024 % 2 ^ 44 =
      ap ppn (sym (pack-flags n)) ∙ ppn-pack (n / 1024) (flags n) in
    rw e (flags-pack (n / 1024 % 64) _, ppn-pack (n / 1024 % 64) _ ∙ omega (arith, p))

-- Each setter of one flag gives this flag its value, and keeps the nine others and, all but `clear_shared`,
-- the frame; `clear_shared` keeps 6 bits of the page number.
pub setters_correct :
    (n : ℕ)
    → Updates (λ f. record f { w = true }) n (set_writable n)
      × Updates (λ f. record f { w = false }) n (clear_writable n)
      × Updates (λ f. record f { u = true }) n (set_user n)
      × Updates (λ f. record f { u = false }) n (clear_user n)
      × Updates (λ f. record f { shared = true }) n (set_shared n)
      × ((flags (clear_shared n) ≡ record (flags n) { shared = false })
          × (ppn (clear_shared n) ≡ ppn n % 64))
setters_correct n = (
  Updates-pack set_writable _ set_writable-pack n,
  Updates-pack clear_writable _ clear_writable-pack n,
  Updates-pack set_user _ set_user-pack n,
  Updates-pack clear_user _ clear_user-pack n,
  Updates-pack set_shared _ set_shared-pack n,
  cleared n,
)

-- A shared entry panics when it is to be shared again; any other becomes a shared entry that is not
-- writable, at the same frame, and made unique again with the writability it had, it has the lowest
-- 16 bits of the entry before, the flags with them, and no bit above these: most of the page number
-- is gone.
pub become_shared-become_unique :
    (n : ℕ)
    → ((shared n ≡ true) × (become_shared n false ≡ panic))
      ⊎ ((shared n ≡ false)
          × Returns
              (λ m.
                Updates (λ f. record f { shared = true; w = false }) n m
                × (become_unique m (writable n) ≡ ok (n % 2 ^ 16)))
              (become_shared n false))
unfolding become_shared become_unique shared writable flags set_shared clear_shared set_writable
    clear_writable
become_shared-become_unique n = elim (Bool-cases (shared n)) [
  | inl s ↦ inl (s, rw s refl)
  | inr s ↦
      inr (s, Returns-of {a = clear_writable (set_shared n)} (ground arith) (both, ground arith))
]
  where
    both : Updates (λ f. record f { shared = true; w = false }) n (clear_writable (set_shared n))
    both =
        Updates-pack (λ m. clear_writable (set_shared m)) _
          (λ hi g. ap clear_writable (set_shared-pack hi g) ∙ clear_writable-pack hi _) n
