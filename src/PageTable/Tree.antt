-- ===== src/PageTable/Tree.antt =====
-- The shape of a page table: each table in use stands at one place of the tree.
use mankoros.Base.{
  ℕ, ◌/◌, ◌%◌, ◌^◌, ◌<◌, ◌≡◌, ◌≢◌, ◌&&◌, not, refl, ap, true, false, ◌==◌, if◌then◌else◌, update,
  Option, none, some, arith, inl, inr, Option-cases,
}
use mankoros.Pte
use mankoros.Pte.{no_flags}
use mankoros.Pte.Entry.{new_correct}
use mankoros.PageTable.Defs.{Memory, Slot, read, write, directory, p3_index, p2_index, p1_index}

-- the root, the table of an entry of the root, and the table of an entry of that
pub data Place : Type 0 where
  root : Place
  mid : ℕ → Place
  low : ℕ → ℕ → Place

-- the place of the table of an entry
abbrev pub child : Place → ℕ → Option Place
child root i = some (mid i)
child (mid j) i = some (low j i)
child (low k j) i = none

-- the upper half of the root belongs to the kernel, and has no places
abbrev pub InUser : Place → ℕ → Type 0
InUser root i = i < 256
InUser (mid j) i = Unit
InUser (low k j) i = Unit

-- The tables of the user space stand at their places, so no two entries have the same table.
pub record IsTree (m : Memory) (root_paddr : ℕ) (place : ℕ → Option Place) : Type 0 where
  pub top : place root_paddr ≡ some root
  pub down :
      (a i : ℕ) (n k : Place)
      → place a ≡ some n
      → child n i ≡ some k
      → InUser n i
      → Pte.is_valid (m.entries a i) ≡ true
      → (Pte.is_directory (m.entries a i) ≡ true) × (place (Pte.paddr (m.entries a i)) ≡ some k)

-- the table that an entry leads to, if there is one
abbrev pub below : Memory → ℕ → ℕ → Option ℕ
below m a i = if Pte.is_valid (m.entries a i) then some (Pte.paddr (m.entries a i)) else none

abbrev pub bind : {A B : Type 0} → Option A → (A → Option B) → Option B
bind none f = none
bind (some a) f = f a

-- the valid entry of an address in a last table
abbrev pub valid_in : Memory → ℕ → ℕ → Option ℕ
valid_in m v a = let e = m.entries a (p1_index v) in if Pte.is_valid e then some e else none

-- what the tables say of an address: its valid entry
unfoldable pub lookup : Memory → ℕ → ℕ → Option ℕ
lookup m root_paddr v =
    bind (below m root_paddr (p3_index v)) (λ b. bind (below m b (p2_index v)) (valid_in m v))

-- the last table on the way to an address
abbrev pub walk : Memory → ℕ → ℕ → Option ℕ
walk m root_paddr v = bind (below m root_paddr (p3_index v)) (λ b. below m b (p2_index v))

pub lookup-walk : (m : Memory) (r v : ℕ) → lookup m r v ≡ bind (walk m r v) (valid_in m v)
unfolding lookup
lookup-walk m r v = elim (Option-cases (below m r (p3_index v))) [
  | inl z ↦ rw z refl
  | inr (b, e) ↦ rw e refl
]

-- a frame that the allocator may give for a table
abbrev pub IsTableFrame : ℕ → Type 0
IsTableFrame q = (q < 2 ^ 56) × (q % 4096 ≡ 0)

pub directory-IsDirectory :
    (q : ℕ)
    → IsTableFrame q
    → (Pte.is_valid (directory q) ≡ true)
      × (Pte.is_directory (directory q) ≡ true)
      × (Pte.paddr (directory q) ≡ q)
unfolding Pte.is_valid Pte.is_directory Pte.flags
directory-IsDirectory q (h, a) =
    let (n, p, f) = new_correct q (record no_flags { v = true }) h a in
    (ap (λ g. g.v) f, ap (λ g. g.v && not (Pte.maps_page g)) f, p)

pub empty-valid : Pte.is_valid 0 ≡ false
unfolding Pte.is_valid Pte.flags
empty-valid = refl

-- a user address
abbrev pub IsUser : ℕ → Type 0
IsUser v = v < 2 ^ 38

pub p3-user : (v : ℕ) → IsUser v → p3_index v < 256
unfolding p3_index
p3-user v h = omega arith

pub index_of_page :
    (v w : ℕ)
    → v / 4096 ≡ w / 4096
    → (p3_index v ≡ p3_index w) × (p2_index v ≡ p2_index w) × (p1_index v ≡ p1_index w)
unfolding p3_index p2_index p1_index
index_of_page v w e = (omega arith, omega arith, omega arith)

pub same_page :
    (v w : ℕ)
    → IsUser v
    → IsUser w
    → p3_index v ≡ p3_index w
    → p2_index v ≡ p2_index w
    → p1_index v ≡ p1_index w
    → v / 4096 ≡ w / 4096
unfolding p3_index p2_index p1_index
same_page v w h k a b c = omega arith

-- `f` changed at `a`, and there at `i` only
module _ (m : Memory) (s : Slot) (e : ℕ) where
  pub write-same : read (write m s e) s ≡ e
  write-same = ground arith

  pub write-other_table : (a i : ℕ) → a ≢ s.table → (write m s e).entries a i ≡ m.entries a i
  write-other_table a i h = ground arith

  pub write-other_index : (a i : ℕ) → i ≢ s.index → (write m s e).entries a i ≡ m.entries a i
  write-other_index a i h = ground arith

-- a new table at the place of the entry `s`, which was empty
abbrev pub grown : Memory → Slot → ℕ → Memory
grown m s q = write (record m { entries = update m.entries q (λ _. 0) }) s (directory q)

abbrev pub placed : (ℕ → Option Place) → ℕ → Place → ℕ → Option Place
placed place q k a = if a == q then some k else place a

pub other_table :
    (place : ℕ → Option Place) (q a : ℕ) (p : Place) → place q ≡ none → place a ≡ some p → a ≢ q
other_table place q a p f h e = let z = ap place e in absurd (cc)

module _ (m : Memory) (place : ℕ → Option Place) (s : Slot) (n : Place) (q : ℕ)
    (fresh : place q ≡ none) (at : place s.table ≡ some n) where
  pub grown-entry :
      (a i : ℕ) (p : Place)
      → place a ≡ some p
      → (grown m s q).entries a i
        ≡ (if (a == s.table) && (i == s.index) then directory q else m.entries a i)
  grown-entry a i p h = let d = other_table place q a p fresh h in ground arith

  pub grown-new : (i : ℕ) → (grown m s q).entries q i ≡ 0
  grown-new i = let d = other_table place q s.table n fresh at in ground arith
