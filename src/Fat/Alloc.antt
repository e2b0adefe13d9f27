-- ===== src/Fat/Alloc.antt =====
-- The search for a free cluster, and its allocation.
use mankoros.Base.{
  ℕ, zero, suc, ◌+◌, ◌<◌, ◌≡◌, ◌≢◌, refl, false, inl, inr, ◌⊎◌, some, List, [], ◌∷◌, ◌==◌,
  get_elem?, set, ok, panic, Bool-cases, Returns, Returns-of, arith,
}
use mankoros.Fat.Defs.{
  end_of_chain, get_fat, put_fat, free_cluster_count, first_free_from, find_first_free, alloc,
}

-- the first free cluster of the table
abbrev pub IsLeastFree : List ℕ → ℕ → Type 0
IsLeastFree fat j = (get_elem? fat j ≡ some 0) × ((k : ℕ) → k < j → get_elem? fat k ≢ some 0)

none_before :
    (v : ℕ) (fat : List ℕ) (j : ℕ)
    → (v == 0) ≡ false
    → ((k : ℕ) → k < j → get_elem? fat k ≢ some 0)
    → (k : ℕ) → k < suc j
    → get_elem? (v ∷ fat) k ≢ some 0
none_before v fat j used before zero h = ground (arith, used)
none_before v fat j used before (suc k) h = before k (omega arith)

first_free_from-IsLeastFree :
    (i : ℕ) (fat : List ℕ)
    → ((free_cluster_count fat ≡ 0) × (first_free_from i fat ≡ panic))
      ⊎ ((j : ℕ) × (first_free_from i fat ≡ ok (i + j)) × IsLeastFree fat j)
unfolding free_cluster_count first_free_from
first_free_from-IsLeastFree i [] = inl (refl, refl)
first_free_from-IsLeastFree i (v ∷ fat) = elim (Bool-cases (v == 0)) [
  | inl zero_ ↦ inr (0, ground (arith, zero_), (ground (arith, zero_), λ k h. absurd (omega arith)))
  | inr used ↦ elim (first_free_from-IsLeastFree (suc i) fat) [
    | inl (a, b) ↦ inl (ground (arith, used, a), ground (arith, used, b))
    | inr (j, is, (at, before)) ↦
        inr (suc j, ground (arith, used, is), (at, none_before v fat j used before))
  ]
]

count-set :
    (fat : List ℕ) (j v : ℕ)
    → get_elem? fat j ≡ some 0
    → 0 < v
    → free_cluster_count fat ≡ suc (free_cluster_count (set fat j v))
unfolding free_cluster_count
count-set [] j v e h = absurd (ground arith)
count-set (x ∷ fat) zero v e h = ground arith
count-set (x ∷ fat) (suc j) v e h = ground (arith, count-set fat j v e h)

-- the cluster that was allocated, and the table after
abbrev pub Allocated : List ℕ → ℕ × List ℕ → Type 0
Allocated fat (cid, fat') =
    IsLeastFree fat cid
    × (fat' ≡ set fat cid end_of_chain)
    × (free_cluster_count fat ≡ suc (free_cluster_count fat'))

-- `alloc` panics exactly on a table with no free cluster, and else takes the first free one, marks
-- it as the end of a chain, and leaves one free cluster less and every other entry as it is.
pub alloc_correct :
    (fat : List ℕ)
    → ((free_cluster_count fat ≡ 0) × (alloc fat ≡ panic)) ⊎ Returns (Allocated fat) (alloc fat)
unfolding alloc find_first_free put_fat get_fat
alloc_correct fat = elim (first_free_from-IsLeastFree 0 fat) [
  | inl (a, b) ↦ inl (a, ground (arith, b))
  | inr (j, is, (at, before)) ↦ inr (
      Returns-of {a = (j, set fat j end_of_chain)} (ground (arith, is, at))
        ((at, before), refl, count-set fat j end_of_chain at (omega arith)))
]

-- A free cluster that is released by `free` counts as one more.
pub free_counts :
    (fat : List ℕ) (j v : ℕ)
    → get_elem? fat j ≡ some v
    → 0 < v
    → suc (free_cluster_count fat) ≡ free_cluster_count (set fat j 0)
unfolding free_cluster_count
free_counts [] j v e h = absurd (ground arith)
free_counts (x ∷ fat) zero v e h = ground arith
free_counts (x ∷ fat) (suc j) v e h = ground (arith, free_counts fat j v e h)
