-- ===== src/Fat/Chain.antt =====
-- The chain of a file's clusters.
use mankoros.Base.{
  ℕ, zero, suc, ◌<◌, ◌≡◌, ◌≢◌, refl, inl, inr, ◌⊎◌, Option, none, some, List, [], ◌∷◌, ◌++◌, leb,
  if◌then◌else◌, length, length-set, get_elem?, get_elem?-set_self, get_elem?-set_ne,
  get_elem?-IsInside, get_elem?_inside, Option-cases, set, All, ok, panic, Returns, Returns-of,
  Returns-inv, arith,
}
use mankoros.Fat.Defs.{
  end_of_chain, get_fat, put_fat, next, find, set_next, alloc_next, chain, free_cluster_count,
}
use mankoros.Fat.Alloc.{alloc_correct}

-- the clusters of a chain, to its end; no cluster after the first is 0
abbrev pub IsChain : List ℕ → List ℕ → Type 0
IsChain fat [] = ⊥
IsChain fat (c ∷ []) = next fat c ≡ ok none
IsChain fat (c ∷ d ∷ l) = (next fat c ≡ ok (some d)) × (0 < d) × IsChain fat (d ∷ l)

-- A chain is what `chain` returns, with fuel for each of its clusters.
pub chain_correct :
    (fuel : ℕ) (fat : List ℕ) (c : ℕ) (l : List ℕ)
    → IsChain fat (c ∷ l)
    → length l < fuel
    → chain fuel fat c ≡ ok (c ∷ l)
unfolding chain
chain_correct zero fat c l h f = absurd (omega arith)
chain_correct (suc fuel) fat c [] h f = ground (arith, h)
chain_correct (suc fuel) fat c (d ∷ l) (e, p, h) f =
    ground (arith, e, chain_correct fuel fat d l h (omega arith))

-- `find` returns the cluster that many places along the chain, and nothing past its end.
pub find_correct :
    (fat : List ℕ) (c : ℕ) (l : List ℕ) (n : ℕ)
    → IsChain fat (c ∷ l)
    → find fat c n ≡ ok (get_elem? (c ∷ l) n)
unfolding find
find_correct fat c l zero h = refl
find_correct fat c [] (suc n) h = ground (arith, h)
find_correct fat c (d ∷ l) (suc n) (e, p, h) = ground (arith, e, find_correct fat d l n h)

pub next_ne : (fat : List ℕ) (k v x : ℕ) → k ≢ x → next (set fat k v) x ≡ next fat x
unfolding next get_fat
next_ne fat k v x h = rw (get_elem?-set_ne fat v h) refl

next_set :
    (fat : List ℕ) (k v : ℕ)
    → k < length fat
    → next (set fat k v) k ≡ ok (if leb 0x0fff_fff8 v then none else some v)
unfolding next get_fat
next_set fat k v h = rw (get_elem?-set_self fat k v h) refl

pub next_free : (fat : List ℕ) (n : ℕ) → get_elem? fat n ≡ some 0 → next fat n ≡ ok (some 0)
unfolding next get_fat
next_free fat n e = ground (arith, e)

last-next : (fat l : List ℕ) (c : ℕ) → IsChain fat (l ++ c ∷ []) → next fat c ≡ ok none
last-next fat [] c h = h
last-next fat (x ∷ []) c h = h.2
last-next fat (x ∷ y ∷ l) c h = last-next fat (y ∷ l) c h.2

-- neither the last cluster nor a free one is followed in a chain by a cluster
before_last :
    (fat : List ℕ) (c n x d : ℕ)
    → next fat c ≡ ok none
    → get_elem? fat n ≡ some 0
    → next fat x ≡ ok (some d)
    → 0 < d
    → (c ≢ x) × (n ≢ x)
before_last fat c n x d last free e p =
    (λ same. ground (arith, e, last, same), λ same. ground (arith, e, next_free fat n free, same))

module _ (fat : List ℕ) (c n : ℕ) (free : get_elem? fat n ≡ some 0) (inside : c < length fat)
    (small : n < 0x0fff_fff8) where
  -- the table with `n` linked behind `c`
  abbrev linked : List ℕ
  linked = set (set fat n end_of_chain) c n

  linked_end : next fat c ≡ ok none → (next linked c ≡ ok (some n)) × (next linked n ≡ ok none)
  linked_end last = (
    ground (
      arith,
      next_set (set fat n end_of_chain) c n (omega (arith, length-set fat n end_of_chain)),
    ),
    ground (
      arith,
      next_ne (set fat n end_of_chain) c n n apart,
      next_set fat n end_of_chain (get_elem?-IsInside fat n 0 free),
    ),
  )
    where
      apart : c ≢ n
      apart same = ground (arith, last, next_free fat n free, same)

  linked_before :
      (x d : ℕ)
      → next fat c ≡ ok none
      → next fat x ≡ ok (some d)
      → 0 < d
      → next linked x ≡ ok (some d)
  linked_before x d last e p =
      let (a, b) = before_last fat c n x d last free e p in
      ground (arith, e, next_ne (set fat n end_of_chain) c n x a, next_ne fat n end_of_chain x b)

  linked-IsChain :
      (l : List ℕ) → IsChain fat (l ++ c ∷ []) → 0 < n → IsChain linked (l ++ c ∷ n ∷ [])
  linked-IsChain [] h pos = let (a, b) = linked_end h in (a, pos, b)
  linked-IsChain (x ∷ []) (e, p, h) pos =
      let (a, b) = linked_end h in (linked_before x c h e p, p, (a, pos, b))
  linked-IsChain (x ∷ y ∷ l) (e, p, h) pos =
      (linked_before x y (last-next fat (y ∷ l) c h) e p, p, linked-IsChain (y ∷ l) h pos)

  -- a chain without the cluster `c`
  linked_other : (l : List ℕ) → All (λ x. x ≢ c) l → IsChain fat l → IsChain linked l
  linked_other [] a h = h
  linked_other (x ∷ []) (a, _) h = ground (
    arith,
    h,
    next_ne (set fat n end_of_chain) c n x,
    next_ne fat n end_of_chain x,
    next_free fat n free,
    a,
  )
  linked_other (x ∷ y ∷ l) (a, b) (e, p, h) = (linked_kept x y a e p, p, linked_other (y ∷ l) b h)
    where
      linked_kept :
          (x d : ℕ) → x ≢ c → next fat x ≡ ok (some d) → 0 < d → next linked x ≡ ok (some d)
      linked_kept x d a e p = ground (
        arith,
        e,
        next_ne (set fat n end_of_chain) c n x,
        next_ne fat n end_of_chain x,
        next_free fat n free,
        a,
      )

next-IsInside : (fat : List ℕ) (c : ℕ) (o : Option ℕ) → next fat c ≡ ok o → c < length fat
unfolding next get_fat
next-IsInside fat c o e = elim (Option-cases (get_elem? fat c)) [
  | inl out ↦ absurd (ground (arith, out, e))
  | inr (v, at) ↦ get_elem?-IsInside fat c v at
]

-- the cluster that was linked, and the table after: the chain is one cluster longer, and every chain
-- that does not run through its old end is the same
abbrev pub Linked : List ℕ → List ℕ → ℕ → ℕ × List ℕ → Type 0
Linked fat l c (n, fat') =
    (get_elem? fat n ≡ some 0)
    × IsChain fat' (l ++ c ∷ n ∷ [])
    × ((other : List ℕ) → All (λ x. x ≢ c) other → IsChain fat other → IsChain fat' other)

-- On a table of fewer than 0x0ffffff8 entries whose first one is in use, `alloc_next` at the end of
-- a chain panics exactly where no cluster is free, and else appends one that was free to the chain,
-- and leaves every chain that does not run through that end.
pub alloc_next_correct :
    (fat l : List ℕ) (c : ℕ)
    → IsChain fat (l ++ c ∷ [])
    → get_elem? fat 0 ≢ some 0
    → length fat < 0x0fff_fff8
    → ((free_cluster_count fat ≡ 0) × (alloc_next fat c ≡ panic))
      ⊎ Returns (Linked fat l c) (alloc_next fat c)
unfolding alloc_next set_next put_fat get_fat
alloc_next_correct fat l c h reserved small = elim (alloc_correct fat) [
  | inl (full, e) ↦ inl (full, ground (arith, e))
  | inr taken ↦
      let ((n, fat'), e, ((free, _), same, _)) = Returns-inv taken in
      let last = last-next fat l c h in
      let inside = next-IsInside fat c none last in
      let low : n < length fat = get_elem?-IsInside fat n 0 free in
      let used : 0 < n = ground (arith, reserved, free) in
      let (v, at) =
        get_elem?_inside fat' c (ground (arith, same, length-set fat n end_of_chain, inside)) in
      inr (
        Returns-of {a = (n, linked fat c n free inside (omega arith))} (ground (arith, e, same, at))
          (
            free,
            linked-IsChain fat c n free inside (omega arith) l h used,
            linked_other fat c n free inside (omega arith),
          ))
]
