-- ===== src/PageTable/Entry.antt =====
-- What a write to the entry of an address changes of what the tables say.
use mankoros.Base.{
  ℕ, ◌/◌, ◌≡◌, ◌≢◌, refl, sym, ap, ◌∙◌, ◌==◌, if◌then◌else◌, Option, none, some, arith, inl, inr,
  Bool-cases,
}
use mankoros.Pte
use mankoros.Pte.{PteFlags}
use mankoros.PageTable.Defs.{Memory, Slot, write, p3_index, p2_index, p1_index}
use mankoros.PageTable.Tree.{
  Place, root, mid, low, child, IsTree, walk, lookup-walk, index_of_page, write-same, lookup,
  IsUser, p3-user, same_page,
}
use mankoros.PageTable.Grow.{below-place, walk-place}

-- the entry, if it is valid
abbrev pub if_valid : ℕ → Option ℕ
if_valid e = if Pte.is_valid e then some e else none

-- A write to the slot of an address.
module _ (m : Memory) (r : ℕ) (place : ℕ → Option Place) (tree : IsTree m r place) (v : ℕ)
    (u : IsUser v) (s : Slot) (e : ℕ)
    (at : place s.table ≡ some (low (p3_index v) (p2_index v))) where
  entries-write :
      (a i j : ℕ) (n k : Place)
      → place a ≡ some n
      → child n i ≡ some k
      → (write m s e).entries a j ≡ m.entries a j
  entries-write a i j n k p c = elim (Bool-cases (a == s.table)) [
    | inl here ↦
        let f : a ≡ s.table = ground (arith, here) in
        let same : low (p3_index v) (p2_index v) ≡ n = cc (p, at, ap place f) in
        let z : none ≡ some k = ap (λ x. child x i) same ∙ c in absurd (cc)
    | inr away ↦ ground (arith, away)
  ]

  pub write-IsTree : IsTree (write m s e) r place
  write-IsTree = record {
    top = tree.top;
    down = λ a i n k p c h valid.
        let same = entries-write a i i n k p c in
        rw same (tree.down a i n k p c h (ap Pte.is_valid (sym same) ∙ valid));
  }

  walk-write : (w : ℕ) → IsUser w → walk (write m s e) r w ≡ walk m r w
  walk-write w h =
      rw (entries-write r (p3_index w) (p3_index w) root (mid _) tree.top refl)
        (elim (below-place m r place tree r (p3_index w) root (mid _) tree.top refl (p3-user w h)) [
          | inl z ↦ rw z refl
          | inr (b, f, p) ↦
              rw (f, entries-write b (p2_index w) (p2_index w) (mid _) (low _ _) p refl) refl
        ])

  last-write :
      (w c : ℕ)
      → IsUser w
      → s.index ≡ p1_index v
      → w / 4096 ≢ v / 4096
      → place c ≡ some (low (p3_index w) (p2_index w))
      → (write m s e).entries c (p1_index w) ≡ m.entries c (p1_index w)
  last-write w c h j d p = elim (Bool-cases (c == s.table)) [
    | inl here ↦
        let f : c ≡ s.table = ground (arith, here) in
        let same : low (p3_index v) (p2_index v) ≡ low (p3_index w) (p2_index w) =
          cc (p, at, ap place f) in
        let apart : p1_index w ≢ s.index =
          λ g. d (same_page w v h u (cc (same)) (cc (same)) (g ∙ j)) in
        ground (arith, apart)
    | inr away ↦ ground (arith, away)
  ]

  -- The write gives the page of the address this entry, and leaves the others.
  pub lookup-write :
      (w : ℕ)
      → IsUser w
      → s.index ≡ p1_index v
      → walk m r v ≡ some s.table
      → lookup (write m s e) r w ≡ (if w / 4096 == v / 4096 then if_valid e else lookup m r w)
  lookup-write w h j l = elim (Bool-cases (w / 4096 == v / 4096)) [
    | inl here ↦
        let (a, b, c) = index_of_page w v (ground (arith, here)) in
        let same : walk m r w ≡ some s.table = rw (a, b) l in
        rw (here, lookup-walk (write m s e) r w, walk-write w h, same, c, sym j, write-same m s e)
          refl
    | inr away ↦
        rw (away, lookup-walk (write m s e) r w, lookup-walk m r w, walk-write w h)
          (elim (walk-place m r place tree w h) [
            | inl z ↦ rw z refl
            | inr (c, f, p) ↦ rw (f, last-write w c h j (ground (arith, away)) p) refl
          ])
  ]
