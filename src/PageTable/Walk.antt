-- ===== src/PageTable/Walk.antt =====
-- The walk to the entry of an address, with and without the creation of tables.
use mankoros.Base.{
  ℕ, ◌≡◌, refl, if◌then◌else◌, Option, none, some, ◌⊎◌, inl, inr, Bool-cases, ok, panic,
}
use mankoros.Pte
use mankoros.PageTable.Defs.{
  PageTable, Memory, Slot, p3_index, p2_index, p1_index, next_table_mut, next_table_mut_opt,
  get_entry_mut_opt, get_entry_mut, slot_1,
}
use mankoros.PageTable.Tree.{
  Place, root, mid, low, child, InUser, IsTree, below, bind, walk, IsUser, p3-user,
}
use mankoros.PageTable.Grow.{below-place}

-- the slot of an address in a last table, where its entry is valid
abbrev pub valid_slot : Memory → ℕ → ℕ → Option Slot
valid_slot m v a = if Pte.is_valid (m.entries a (p1_index v)) then some (slot_1 a v) else none

opt_step :
    (m : Memory) (r : ℕ) (place : ℕ → Option Place)
    → IsTree m r place
    → (a i : ℕ) (n k : Place) → place a ≡ some n
    → child n i ≡ some k
    → InUser n i
    → next_table_mut_opt (m.entries a i) ≡ ok (below m a i)
unfolding next_table_mut_opt
opt_step m r place t a i n k p c u = elim (Bool-cases (Pte.is_valid (m.entries a i))) [
  | inl v ↦ rw (v, (t.down a i n k p c u v).0) refl
  | inr v ↦ rw v refl
]

-- The walk without creation finds the slot of the entry, if there is one.
pub get_entry_mut_opt-lookup :
    (t : PageTable) (m : Memory) (place : ℕ → Option Place)
    → IsTree m t.root_paddr place
    → (v : ℕ) → IsUser v
    → get_entry_mut_opt t m v ≡ ok (bind (walk m t.root_paddr v) (valid_slot m v))
unfolding get_entry_mut_opt
get_entry_mut_opt-lookup t m place tree v u =
    let r = t.root_paddr in
    rw (opt_step m r place tree r (p3_index v) root (mid _) tree.top refl (p3-user v u))
      (elim (below-place m r place tree r (p3_index v) root (mid _) tree.top refl (p3-user v u)) [
        | inl z ↦ rw z refl
        | inr (b, f, o) ↦
            rw (f, opt_step m r place tree b (p2_index v) (mid _) (low _ _) o refl tt)
              (elim (below-place m r place tree b (p2_index v) (mid _) (low _ _) o refl tt) [
                | inl z ↦ rw z refl
                | inr (c, g, w) ↦ rw g refl
              ])
      ])

step :
    (m : Memory) (a i : ℕ)
    → ((below m a i ≡ none) × (next_table_mut (m.entries a i) ≡ panic))
      ⊎ ((b : ℕ) × (below m a i ≡ some b) × (next_table_mut (m.entries a i) ≡ ok b))
unfolding next_table_mut
step m a i = elim (Bool-cases (Pte.is_valid (m.entries a i))) [
  | inl v ↦ inr (Pte.paddr (m.entries a i), rw v refl, rw v refl)
  | inr v ↦ inl (rw v refl, rw v refl)
]

-- The walk to an entry panics where a table is missing, and else finds the slot of the address.
pub get_entry_mut-walk :
    (t : PageTable) (m : Memory) (v : ℕ)
    → ((walk m t.root_paddr v ≡ none) × (get_entry_mut t m v ≡ panic))
      ⊎ ((c : ℕ) × (walk m t.root_paddr v ≡ some c) × (get_entry_mut t m v ≡ ok (slot_1 c v)))
unfolding get_entry_mut
get_entry_mut-walk t m v = elim (step m t.root_paddr (p3_index v)) [
  | inl (z, e) ↦ inl (rw z refl, rw e refl)
  | inr (b, z, e) ↦ elim (step m b (p2_index v)) [
    | inl (y, g) ↦ inl (rw (z, y) refl, rw (e, g) refl)
    | inr (c, y, g) ↦ inr (c, rw (z, y) refl, rw (e, g) refl)
  ]
]
