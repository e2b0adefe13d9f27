-- ===== src/PageTable/Grow.antt =====
-- A new table in an empty slot: the tree grows, and no address gets or loses an entry.
use mankoros.Base.{
  ℕ, ◌≡◌, refl, sym, ap, ◌∙◌, true, false, ◌&&◌, ◌==◌, if◌then◌else◌, Option, none, some, arith,
  ◌⊎◌, inl, inr, Bool-cases,
}
use mankoros.Pte
use mankoros.PageTable.Defs.{Memory, Slot, read, directory, p3_index, p2_index, p1_index}
use mankoros.PageTable.Tree.{
  Place, root, mid, low, child, InUser, IsTree, below, bind, walk, valid_in, lookup, IsTableFrame,
  directory-IsDirectory, empty-valid, IsUser, p3-user, grown, placed, grown-entry, grown-new,
  other_table,
}

-- where the entry leads, it leads to its place
pub below-place :
    (m : Memory) (r : ℕ) (place : ℕ → Option Place)
    → IsTree m r place
    → (a i : ℕ) (n k : Place) → place a ≡ some n
    → child n i ≡ some k
    → InUser n i
    → (below m a i ≡ none) ⊎ ((b : ℕ) × (below m a i ≡ some b) × (place b ≡ some k))
below-place m r place t a i n k p c u = elim (Bool-cases (Pte.is_valid (m.entries a i))) [
  | inl v ↦ inr (Pte.paddr (m.entries a i), ground arith, (t.down a i n k p c u v).1)
  | inr v ↦ inl (ground arith)
]

-- the walk ends before a last table, or at the one of its place
pub walk-place :
    (m : Memory) (r : ℕ) (place : ℕ → Option Place)
    → IsTree m r place
    → (v : ℕ) → IsUser v
    → (walk m r v ≡ none)
      ⊎ ((c : ℕ) × (walk m r v ≡ some c) × (place c ≡ some (low (p3_index v) (p2_index v))))
walk-place m r place t v u =
    elim (below-place m r place t r (p3_index v) root (mid _) t.top refl (p3-user v u)) [
      | inl z ↦ inl (rw z refl)
      | inr (b, e, p) ↦ elim (below-place m r place t b (p2_index v) (mid _) (low _ _) p refl tt) [
        | inl z ↦ inl (rw (e, z) refl)
        | inr (c, f, q) ↦ inr (c, rw (e, f) refl, q)
      ]
    ]

module _ (m : Memory) (r : ℕ) (place : ℕ → Option Place) (s : Slot) (n k : Place) (q : ℕ)
    (t : IsTree m r place) (frame : IsTableFrame q) (fresh : place q ≡ none)
    (at : place s.table ≡ some n) (next : child n s.index ≡ some k)
    (gone : Pte.is_valid (read m s) ≡ false) where
  pub below-grown :
      (a i : ℕ) (p : Place)
      → place a ≡ some p
      → below (grown m s q) a i ≡ (if (a == s.table) && (i == s.index) then some q else below m a i)
  below-grown a i p h =
      let e = grown-entry m place s n q fresh at a i p h in
      let d = directory-IsDirectory q frame in ground (arith, e, d)

  -- a place is what it was, or the new one
  placed-cases :
      (a : ℕ) (p : Place) → placed place q k a ≡ some p → ((a ≡ q) × (k ≡ p)) ⊎ (place a ≡ some p)
  placed-cases a p h = elim (Bool-cases (a == q)) [
    | inl e ↦ inl (ground arith, ground (arith, e))
    | inr e ↦ inr (ground (arith, e))
  ]

  pub placed-old : (a : ℕ) (p : Place) → place a ≡ some p → placed place q k a ≡ some p
  placed-old a p h = let d = other_table place q a p fresh h in ground (arith, h)

  new_place :
      (a i : ℕ) (n' k' : Place)
      → a ≡ s.table
      → i ≡ s.index
      → place a ≡ some n'
      → child n' i ≡ some k'
      → placed place q k q ≡ some k'
  new_place a i n' k' e f p c =
      let same : n' ≡ n = cc (p, at, ap place e) in
      let z : some k ≡ some k' = sym next ∙ rw (sym same, sym f) c in ground (arith, z)

  grown-down :
      (a i : ℕ) (n' k' : Place)
      → place a ≡ some n'
      → child n' i ≡ some k'
      → InUser n' i
      → Pte.is_valid ((grown m s q).entries a i) ≡ true
      → (Pte.is_directory ((grown m s q).entries a i) ≡ true)
        × (placed place q k (Pte.paddr ((grown m s q).entries a i)) ≡ some k')
  grown-down a i n' k' p c u v =
      let e = grown-entry m place s n q fresh at a i n' p in
      let (dv, dd, dp) = directory-IsDirectory q frame in
      elim (Bool-cases ((a == s.table) && (i == s.index))) [
        | inl here ↦
            let same : (grown m s q).entries a i ≡ directory q = ground (arith, e, here) in
            rw (same, dp)
              (dd, new_place a i n' k' (ground (arith, here)) (ground (arith, here)) p c)
        | inr away ↦
            let same : (grown m s q).entries a i ≡ m.entries a i = ground (arith, e, away) in
            let (d, w) = t.down a i n' k' p c u (ap Pte.is_valid (sym same) ∙ v) in
            rw same (d, placed-old _ k' w)
      ]

  pub grown-IsTree : IsTree (grown m s q) r (placed place q k)
  grown-IsTree = record {
    top = placed-old r root t.top;
    down = λ a i n' k' p c u v. elim (placed-cases a n' p) [
      | inl (e, f) ↦
          let z : (grown m s q).entries a i ≡ 0 = rw e (grown-new m place s n q fresh at i) in
          absurd (cc (z, v, empty-valid))
      | inr old ↦ grown-down a i n' k' old c u v
    ];
  }

  -- the new table is empty
  below-new : (i : ℕ) → below (grown m s q) q i ≡ none
  below-new i = rw (grown-new m place s n q fresh at i, empty-valid) refl

  pub below-gone : (a i : ℕ) → ((a == s.table) && (i == s.index)) ≡ true → below m a i ≡ none
  below-gone a i here =
      let same : m.entries a i ≡ read m s = ground (arith, here) in rw (same, gone) refl

  last-grown : (a i x y : ℕ) → place a ≡ some (low x y) → (grown m s q).entries a i ≡ m.entries a i
  last-grown a i x y p = elim (Bool-cases ((a == s.table) && (i == s.index))) [
    | inl here ↦
        let e : a ≡ s.table = ground (arith, here) in
        let same : n ≡ low x y = cc (p, at, ap place e) in
        let z : none ≡ some k = ap (λ x. child x s.index) (sym same) ∙ next in absurd (cc)
    | inr away ↦ ground (arith, away, grown-entry m place s n q fresh at a i (low x y) p)
  ]

  -- the walk from a table of the second level
  lookup_mid-grown :
      (w b x : ℕ)
      → place b ≡ some (mid x)
      → bind (below (grown m s q) b (p2_index w)) (valid_in (grown m s q) w)
        ≡ bind (below m b (p2_index w)) (valid_in m w)
  lookup_mid-grown w b x p =
      let i = p2_index w in
      let e = below-grown b i (mid x) p in
      elim (Bool-cases ((b == s.table) && (i == s.index))) [
        | inl here ↦
            rw
              (
                e,
                here,
                below-gone b i here,
                grown-new m place s n q fresh at (p1_index w),
                empty-valid,
              )
              refl
        | inr away ↦ elim (below-place m r place t b i (mid x) (low x i) p refl tt) [
          | inl no_table ↦ rw (e, away, no_table) refl
          | inr (c, f, o) ↦ rw (e, away, f, last-grown c (p1_index w) x i o) refl
        ]
      ]

  pub grown-lookup : (w : ℕ) → IsUser w → lookup (grown m s q) r w ≡ lookup m r w
  unfolding lookup
  grown-lookup w u =
      let i = p3_index w in
      let e = below-grown r i root t.top in
      elim (Bool-cases ((r == s.table) && (i == s.index))) [
        | inl here ↦ rw (e, here, below-gone r i here, below-new (p2_index w)) refl
        | inr away ↦ elim (below-place m r place t r i root (mid i) t.top refl (p3-user w u)) [
          | inl no_table ↦ rw (e, away, no_table) refl
          | inr (b, f, o) ↦ rw (e, away, f) (lookup_mid-grown w b i o)
        ]
      ]
