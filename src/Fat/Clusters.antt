-- ===== src/Fat/Clusters.antt =====
-- ClusterChain, src/fs/nfat32/tools.rs: the clusters of a file as they are kept in memory; and the change of
-- a file's size, src/fs/nfat32/file.rs.
use mankoros.Base.{
  ℕ, zero, suc, ◌+◌, ◌-◌, ◌*◌, ◌/◌, ◌%◌, ◌^◌, ◌≤◌, ◌<◌, ◌≡◌, refl, inl, inr, Option, none, some,
  List, [], ◌∷◌, ◌++◌, ltb, Run-cases, length-append, ◌⊎◌, if◌then◌else◌, length, get_elem?, set,
  Run, ok, panic, ◌>>=◌, unwrap, add_usize, add_usize-ok, mul_usize-ok, sub_usize-ok, Returns,
  Returns-of, Returns-inv, returns, arith,
}
use mankoros.Fat.Defs.{Layout, end_of_chain, alloc, free, first_sector, next}
use mankoros.Fat.Alloc.{alloc_correct}
use mankoros.Fat.Chain.{IsChain, next_ne, next_free}
use mankoros.Fat.Sector.{Fits}

-- the last element and those before it
unfoldable pub pop : List ℕ → Option (List ℕ × ℕ)
pop [] = none
pop (c ∷ l) = elim (pop l) [ none ↦ some ([], c) | some (l', last) ↦ some (c ∷ l', last) ]

unfoldable pub add : List ℕ → ℕ → List ℕ
add l cluster = l ++ cluster ∷ []

unfoldable pub alloc_push : ℕ → List ℕ → List ℕ → Run (List ℕ × List ℕ)
alloc_push zero l fat = ok (l, fat)
alloc_push (suc n) l fat = alloc fat >>= λ (c, fat'). alloc_push n (add l c) fat'

unfoldable pub free_pop : ℕ → List ℕ → List ℕ → Run (List ℕ × List ℕ)
free_pop zero l fat = ok (l, fat)
free_pop (suc n) l fat = do (l', last) ← unwrap (pop l); fat' ← free fat last; free_pop n l' fat'

unfoldable pub free_all : List ℕ → List ℕ → Run (List ℕ)
free_all [] fat = ok fat
free_all (c ∷ l) fat = free fat c >>= λ fat'. free_all l fat'

-- a byte of the file: its sector and its place in it
unfoldable pub offset_sct : Layout → List ℕ → ℕ → Run (ℕ × ℕ)
offset_sct fs l byte_offset = do
  cluster_id ← unwrap (get_elem? l (byte_offset / 2 ^ (fs.log_cls_size_sct + 9)))
  first_sector_id ← first_sector fs cluster_id
  sector_id ← add_usize first_sector_id (byte_offset % 2 ^ (fs.log_cls_size_sct + 9) / 512)
  ok (sector_id, byte_offset % 2 ^ (fs.log_cls_size_sct + 9) % 512)

-- the clusters after `truncate`, before the new bytes are filled with zeros
unfoldable pub truncate_clusters : Layout → ℕ → List ℕ → List ℕ → Run (List ℕ × List ℕ)
truncate_clusters fs new_size l fat =
    let new_size_cls = new_size / 2 ^ (fs.log_cls_size_sct + 9) in
    let grown = alloc_push (new_size_cls - length l) l fat in
    let cut = free_pop (length l - new_size_cls) l fat in
    if ltb (length l) new_size_cls
    then grown
    else if ltb new_size_cls (length l)
    then cut
    else ok (l, fat)

in_cluster : (k b : ℕ) → k < 8 → b % 2 ^ (k + 9) / 512 < 2 ^ k
in_cluster zero b h = omega arith
in_cluster (suc zero) b h = omega arith
in_cluster (suc (suc zero)) b h = omega arith
in_cluster (suc (suc (suc zero))) b h = omega arith
in_cluster (suc (suc (suc (suc zero)))) b h = omega arith
in_cluster (suc (suc (suc (suc (suc zero))))) b h = omega arith
in_cluster (suc (suc (suc (suc (suc (suc zero)))))) b h = omega arith
in_cluster (suc (suc (suc (suc (suc (suc (suc zero))))))) b h = omega arith
in_cluster (suc (suc (suc (suc (suc (suc (suc (suc k)))))))) b h = absurd (omega arith)

-- Where a cluster has as many sectors as the logarithm says, 128 at most, and its sectors end below
-- 2^64, a byte of a file is found in the cluster of the chain that its offset falls into, in a
-- sector of that cluster, at the distance from the start of the cluster that the offset has in the
-- cluster.
pub offset_sct_correct :
    (fs : Layout) (l : List ℕ) (byte c : ℕ)
    → fs.cluster_size_sct ≡ 2 ^ fs.log_cls_size_sct
    → fs.log_cls_size_sct < 8
    → get_elem? l (byte / 2 ^ (fs.log_cls_size_sct + 9)) ≡ some c
    → 2 ≤ c
    → Fits fs c
    → Returns
        (λ (s, o).
          (f : ℕ) × (first_sector fs c ≡ ok f)
          × (f ≤ s)
          × (s < f + 2 ^ fs.log_cls_size_sct)
          × (o < 512)
          × ((s - f) * 512 + o ≡ byte % 2 ^ (fs.log_cls_size_sct + 9)))
        (offset_sct fs l byte)
unfolding offset_sct first_sector
offset_sct_correct fs l byte c size h at low fits =
    let x = byte % 2 ^ (fs.log_cls_size_sct + 9) in
    let small = in_cluster fs.log_cls_size_sct byte h in
    let base = fs.data_begin_sct + (c - 2) * 2 ^ fs.log_cls_size_sct in
    let first : first_sector fs c ≡ ok base = ground (
      arith,
      size,
      sub_usize-ok c 2 low,
      mul_usize-ok (c - 2) (2 ^ fs.log_cls_size_sct) (omega arith),
      add_usize-ok fs.data_begin_sct ((c - 2) * 2 ^ fs.log_cls_size_sct) (omega arith),
    ) in
    Returns-of {a = (base + x / 512, x % 512)}
      (ground (arith, at, first, add_usize-ok base (x / 512) (omega arith)))
      (base, first, omega arith, omega arith, omega arith, omega arith)

alloc-IsChain :
    (fat l : List ℕ) (n : ℕ)
    → get_elem? fat n ≡ some 0
    → IsChain fat l
    → IsChain (set fat n end_of_chain) l
alloc-IsChain fat [] n e h = h
alloc-IsChain fat (x ∷ []) n e h =
    ground (arith, h, next_ne fat n end_of_chain x, next_free fat n e)
alloc-IsChain fat (x ∷ y ∷ l) n e (a, p, h) = (kept, p, alloc-IsChain fat (y ∷ l) n e h)
  where
    kept : next (set fat n end_of_chain) x ≡ ok (some y)
    kept = ground (arith, a, p, next_ne fat n end_of_chain x, next_free fat n e)

-- the list in memory is longer, and the chain in the table is what it was
abbrev pub Pushed : ℕ → List ℕ → List ℕ → List ℕ × List ℕ → Type 0
Pushed n l chain (l', fat') = (length l' ≡ length l + n) × IsChain fat' chain

-- Where it does not run out of clusters, `alloc_push` makes the list in memory longer, and does not
-- link the new clusters: in the table every chain is what it was.
pub alloc_push-unlinked :
    (n : ℕ) (l fat chain : List ℕ)
    → IsChain fat chain
    → (alloc_push n l fat ≡ panic) ⊎ Returns (Pushed n l chain) (alloc_push n l fat)
unfolding alloc_push add
alloc_push-unlinked zero l fat chain h = inr (returns (omega arith, h))
alloc_push-unlinked (suc n) l fat chain h = elim (alloc_correct fat) [
  | inl (full, e) ↦ inl (ground (arith, e))
  | inr taken ↦
      let ((c, fat'), e, ((at, _), same, _)) = Returns-inv taken in
      let kept : IsChain fat' chain = rw same (alloc-IsChain fat chain c at h) in
      elim (alloc_push-unlinked n (l ++ c ∷ []) fat' chain kept) [
        | inl stop ↦ inl (ground (arith, e, stop))
        | inr pushed ↦
            let (t, is, (long, linked)) = Returns-inv pushed in
            inr (
              Returns-of {a = t} (ground (arith, e, is))
                (omega (arith, long, length-append l (c ∷ [])), linked))
      ]
]

pop-length :
    (c : ℕ) (l : List ℕ)
    → (l' : List ℕ) × (last : ℕ) × (pop (c ∷ l) ≡ some (l', last)) × (length l' ≡ length l)
unfolding pop
pop-length c [] = ([], c, refl, refl)
pop-length c (d ∷ l) =
    let (l', last, e, long) = pop-length d l in
    (c ∷ l', last, ground (arith, e), omega (arith, long))

free_pop-empties :
    (n : ℕ) (l fat : List ℕ)
    → length l ≡ n
    → (free_pop n l fat ≡ panic) ⊎ Returns (λ t. t.0 ≡ []) (free_pop n l fat)
unfolding free_pop
free_pop-empties zero [] fat e = inr (returns refl)
free_pop-empties zero (c ∷ l) fat e = absurd (omega arith)
free_pop-empties (suc n) [] fat e = absurd (omega arith)
free_pop-empties (suc n) (c ∷ l) fat e =
    let (l', last, is, long) = pop-length c l in
    elim (Run-cases (free fat last)) [
      | inr stop ↦ inl (ground (arith, is, stop))
      | inl (fat', freed) ↦ elim (free_pop-empties n l' fat' (omega (arith, long))) [
        | inl stop ↦ inl (ground (arith, is, freed, stop))
        | inr done ↦
            let (t, ends, none_left) = Returns-inv done in
            inr (Returns-of {a = t} (ground (arith, is, freed, ends)) none_left)
      ]
    ]

no_cluster : (k b : ℕ) → k < 8 → b < 2 ^ (k + 9) → b / 2 ^ (k + 9) ≡ 0
no_cluster zero b h p = omega arith
no_cluster (suc zero) b h p = omega arith
no_cluster (suc (suc zero)) b h p = omega arith
no_cluster (suc (suc (suc zero))) b h p = omega arith
no_cluster (suc (suc (suc (suc zero)))) b h p = omega arith
no_cluster (suc (suc (suc (suc (suc zero))))) b h p = omega arith
no_cluster (suc (suc (suc (suc (suc (suc zero)))))) b h p = omega arith
no_cluster (suc (suc (suc (suc (suc (suc (suc zero))))))) b h p = omega arith
no_cluster (suc (suc (suc (suc (suc (suc (suc (suc k)))))))) b h p = absurd (omega arith)

-- A truncation to less than one cluster that does not panic leaves a file of one cluster or more
-- with no cluster, also where the new size is not 0.
pub truncate_clusters-frees_all :
    (fs : Layout) (new_size c : ℕ) (l fat : List ℕ)
    → fs.log_cls_size_sct < 8
    → new_size < 2 ^ (fs.log_cls_size_sct + 9)
    → (truncate_clusters fs new_size (c ∷ l) fat ≡ panic)
      ⊎ Returns (λ t. t.0 ≡ []) (truncate_clusters fs new_size (c ∷ l) fat)
unfolding truncate_clusters
truncate_clusters-frees_all fs new_size c l fat low h =
    let small = no_cluster fs.log_cls_size_sct new_size low h in
    elim (free_pop-empties (length (c ∷ l)) (c ∷ l) fat refl) [
      | inl stop ↦ inl (ground (arith, small, stop))
      | inr done ↦
          let (t, is, gone) = Returns-inv done in
          inr (Returns-of {a = t} (ground (arith, small, is)) gone)
    ]
