-- ===== src/PageTable/Create.antt =====
-- The walk that creates the tables that are missing.
use mankoros.Base.{
  ℕ, ◌*◌, ◌^◌, ◌<◌, ◌≡◌, ◌≢◌, refl, ◌∙◌, Bool, true, false, ◌&&◌, ◌==◌, if◌then◌else◌, update,
  Option, none, some, [], ◌∷◌, ◌++◌, arith, inl, inr, Bool-cases, ok, Returns, returns,
  Returns-bind,
}
use mankoros.Address.{page_size}
use mankoros.Pte
use mankoros.Frame.Calls.{HasCounter, settles, alloc-settles}
use mankoros.PageTable.Defs.{
  PageTable, Memory, Slot, first, rest, read, p3_index, p2_index, p1_index, alloc_table,
  next_table_mut, next_table_mut_or_create, get_entry_mut_or_create, slot_2, slot_3,
}
use mankoros.PageTable.Tree.{
  Place, root, mid, low, child, InUser, IsTree, below, walk, lookup, IsTableFrame, IsUser, p3-user,
  grown, placed,
}
use mankoros.PageTable.Grow.{grown-IsTree, grown-lookup, below-grown, below-gone, placed-old}

-- the allocator's frame `p` is unused, and no table
abbrev pub IsFresh : Memory → (ℕ → Option Place) → ℕ → Type 0
IsFresh m place p =
    HasCounter m.frames p
    × (m.frames.ref_cnt p ≡ 0)
    × (p * page_size < 2 ^ 56)
    × (place (p * page_size) ≡ none)

-- the memory after the allocator gave the frame `p`
abbrev pub taken : Memory → ℕ → Memory
taken m p = record m { frames = settles m.frames p 1; picks = rest m.picks }

pub alloc_table_ok :
    (m : Memory) (p : ℕ)
    → HasCounter m.frames p
    → m.frames.ref_cnt p ≡ 0
    → first m.picks ≡ some (p * page_size)
    → alloc_table m
      ≡ ok (
        p * page_size,
        record (taken m p) { entries = update m.entries (p * page_size) (λ _. 0) },
      )
unfolding alloc_table
alloc_table_ok m p h e f = rw (f, alloc-settles m.frames p h e) refl

-- What a step of the walk leaves: a bigger tree where the slot leads to the table, with the entries
-- of the addresses as they were.
pub record Grows (t : PageTable) (m : Memory) (place : ℕ → Option Place) (s : Slot) (k : Place)
    (b : ℕ) (t' : PageTable) (m' : Memory) : Type 0 where
  pub place' : ℕ → Option Place
  pub tree : IsTree m' t.root_paddr place'
  pub at : place' b ≡ some k
  pub leads : below m' s.table s.index ≡ some b
  pub same : (w : ℕ) → IsUser w → lookup m' t.root_paddr w ≡ lookup m t.root_paddr w
  pub keeps : (a : ℕ) (n : Place) → place a ≡ some n → place' a ≡ some n
  pub leads_on :
      (a i : ℕ) (n : Place) (c : ℕ)
      → place a ≡ some n
      → below m a i ≡ some c
      → below m' a i ≡ some c
  pub root_same : t'.root_paddr ≡ t.root_paddr
  pub more :
      (p x : ℕ)
      → first m.picks ≡ some (p * page_size)
      → first (rest m.picks) ≡ some (x * page_size)
      → p ≢ x
      → IsFresh m place p
      → IsFresh m place x
      → (y : ℕ) × (first m'.picks ≡ some (y * page_size)) × IsFresh m' place' y

module _ (t : PageTable) (m : Memory) (place : ℕ → Option Place)
    (tree : IsTree m t.root_paddr place) (s : Slot) (n k : Place) (at : place s.table ≡ some n)
    (next : child n s.index ≡ some k) where
  present :
      InUser n s.index
      → Pte.is_valid (read m s) ≡ true
      → Grows t m place s k (Pte.paddr (read m s)) t m
  present u v = record {
    place' = place;
    tree = tree;
    at = (tree.down s.table s.index n k at next u v).1;
    leads = rw v refl;
    same = λ w h. refl;
    keeps = λ a o e. e;
    leads_on = λ a i o c e f. f;
    root_same = refl;
    more = λ p x e f d g h. (p, e, g);
  }

  IsFresh-after :
      (p' x p : ℕ)
      → first m.picks ≡ some (p * page_size)
      → first m.picks ≡ some (p' * page_size)
      → p' ≢ x
      → IsFresh m place x
      → IsFresh (grown (taken m p) s (p * page_size)) (placed place (p * page_size) k) x
  IsFresh-after p' x p e f d (c, z, b, g) =
      let apart : p ≢ x = λ h. d (ground (arith, e, f)) in (c, ground arith, b, ground (arith, g))

  created :
      (p : ℕ) (t' : PageTable)
      → t'.root_paddr ≡ t.root_paddr
      → first m.picks ≡ some (p * page_size)
      → IsFresh m place p
      → Pte.is_valid (read m s) ≡ false
      → Grows t m place s k (p * page_size) t' (grown (taken m p) s (p * page_size))
  unfolding lookup
  created p t' e pick (c, z, b, f) v =
      let q = p * page_size in
      let frame : IsTableFrame q = (b, omega arith) in
      let tree' : IsTree (taken m p) t.root_paddr place = record {
        top = tree.top;
        down = tree.down;
      } in
      let g = below-grown (taken m p) t.root_paddr place s n k q tree' frame f at next v in
      record {
        place' = placed place q k;
        tree = grown-IsTree (taken m p) t.root_paddr place s n k q tree' frame f at next v;
        at = ground arith;
        leads = ground (arith, g s.table s.index n at);
        same = grown-lookup (taken m p) t.root_paddr place s n k q tree' frame f at next v;
        keeps = placed-old (taken m p) t.root_paddr place s n k q tree' frame f at next v;
        leads_on = λ a i o x d l. elim (Bool-cases ((a == s.table) && (i == s.index))) [
          | inl here ↦
              let z =
                below-gone (taken m p) t.root_paddr place s n k q tree' frame f at next v a i
                  here in
              absurd (cc (z, l))
          | inr away ↦ ground (arith, g a i o d, away, l)
        ];
        root_same = e;
        more = λ p' x i j d l o. (x, j, IsFresh-after p' x p pick i d o);
      }

  -- A step of the walk with creation does not panic.
  pub next_table_mut_or_create-Grows :
      (p : ℕ)
      → InUser n s.index
      → first m.picks ≡ some (p * page_size)
      → IsFresh m place p
      → Returns (λ (b, t', m'). Grows t m place s k b t' m') (next_table_mut_or_create t m s)
  unfolding next_table_mut_or_create next_table_mut
  next_table_mut_or_create-Grows p u pick f = elim (Bool-cases (Pte.is_valid (read m s))) [
    | inl v ↦ rw v (returns (present u v))
    | inr v ↦
        rw (v, alloc_table_ok m p f.0 f.1 pick)
          (returns (created p _ (root_kept t.no_alloc) pick f v))
  ]
    where
      root_kept :
          (b : Bool)
          → (if b
              then t
              else record t { intrm_tables = t.intrm_tables ++ p * page_size ∷ [] }).root_paddr
            ≡ t.root_paddr
      root_kept true = refl
      root_kept false = refl

-- What the walk with creation leaves: the slot is the one that the address has, in the last table, and
-- the addresses have the entries they had.
pub record Found (t : PageTable) (m : Memory) (v : ℕ) (s : Slot) (t' : PageTable) (m' : Memory)
    : Type 0 where
  pub place' : ℕ → Option Place
  pub tree : IsTree m' t'.root_paddr place'
  pub at : place' s.table ≡ some (low (p3_index v) (p2_index v))
  pub index_same : s.index ≡ p1_index v
  pub leads : walk m' t'.root_paddr v ≡ some s.table
  pub same : (w : ℕ) → IsUser w → lookup m' t'.root_paddr w ≡ lookup m t.root_paddr w
  pub root_same : t'.root_paddr ≡ t.root_paddr

-- the allocator has two frames for tables
abbrev pub HasTwo : Memory → (ℕ → Option Place) → Type 0
HasTwo m place =
    (p : ℕ) × (x : ℕ) × (first m.picks ≡ some (p * page_size))
    × (first (rest m.picks) ≡ some (x * page_size))
    × (p ≢ x)
    × IsFresh m place p
    × IsFresh m place x

pub get_entry_mut_or_create-Found :
    (t : PageTable) (m : Memory) (place : ℕ → Option Place)
    → IsTree m t.root_paddr place
    → HasTwo m place
    → (v : ℕ) → IsUser v
    → Returns (λ (s, t', m'). Found t m v s t' m') (get_entry_mut_or_create t m v)
unfolding get_entry_mut_or_create
get_entry_mut_or_create-Found t m place tree (p, x, i, j, d, f, g) v u =
    Returns-bind
      (next_table_mut_or_create-Grows t m place tree (slot_3 t v) root (mid (p3_index v)) tree.top
        refl p (p3-user v u) i f)
      (λ (b, t2, m2) a.
        let (y, h, o) = a.more p x i j d f g in
        let r = a.root_same in
        let tree2 : IsTree m2 t2.root_paddr a.place' = rw r a.tree in
        Returns-bind
          (next_table_mut_or_create-Grows t2 m2 a.place' tree2 (slot_2 b v) (mid (p3_index v))
            (low (p3_index v) (p2_index v)) a.at refl y tt h o)
          (λ (c, t1, m1) z.
            let on = z.leads_on t.root_paddr (p3_index v) root b a.tree.top a.leads in
            returns (record {
              place' = z.place';
              tree = rw z.root_same z.tree;
              at = z.at;
              index_same = refl;
              leads = rw (z.root_same, r, on) z.leads;
              same = λ w h. rw z.root_same (z.same w h ∙ rw r (a.same w h));
              root_same = z.root_same ∙ r;
            })))
