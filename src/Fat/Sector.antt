-- ===== src/Fat/Sector.antt =====
-- Sectors and the clusters that they are in.
use mankoros.Base.{
  ℕ, zero, suc, ◌+◌, ◌-◌, ◌*◌, ◌/◌, ◌%◌, ◌^◌, ◌≤◌, ◌<◌, ◌≡◌, none, some, List, ◌==◌, if◌then◌else◌,
  ok, ◌>>=◌, add_usize-ok, sub_usize-ok, mul_usize-ok, usize_mod, Returns, Returns-of, arith,
}
use mankoros.Fat.Defs.{Layout, next, first_sector, find_cluster, next_sector}

quotient_at :
    (k a o : ℕ) → k < 8 → o < 2 ^ k → ((a * 2 ^ k + o) / 2 ^ k ≡ a) × ((a * 2 ^ k + o) % 2 ^ k ≡ o)
quotient_at zero a o h p = (omega arith, omega arith)
quotient_at (suc zero) a o h p = (omega arith, omega arith)
quotient_at (suc (suc zero)) a o h p = (omega arith, omega arith)
quotient_at (suc (suc (suc zero))) a o h p = (omega arith, omega arith)
quotient_at (suc (suc (suc (suc zero)))) a o h p = (omega arith, omega arith)
quotient_at (suc (suc (suc (suc (suc zero))))) a o h p = (omega arith, omega arith)
quotient_at (suc (suc (suc (suc (suc (suc zero)))))) a o h p = (omega arith, omega arith)
quotient_at (suc (suc (suc (suc (suc (suc (suc zero))))))) a o h p = (omega arith, omega arith)
quotient_at (suc (suc (suc (suc (suc (suc (suc (suc k)))))))) a o h p = absurd (omega arith)

-- the sectors of a cluster end below 2^64
abbrev pub Fits : Layout → ℕ → Type 0
Fits fs c =
    fs.data_begin_sct + (c - 2) * 2 ^ fs.log_cls_size_sct + 2 ^ fs.log_cls_size_sct < usize_mod

module _ (fs : Layout) (fat : List ℕ) (c o : ℕ) where
  -- the sector of a cluster at an offset, and what is behind it: the next sector of the cluster, or the first
  -- one of the next cluster of the chain
  abbrev pub IsSectorOf : ℕ → Type 0
  IsSectorOf s =
      (find_cluster fs (s + o) ≡ ok c)
      × (next_sector fs fat (s + o) ≡ (
          if o == 2 ^ fs.log_cls_size_sct - 1
          then (next fat c >>= λ n. elim n [
            | none ↦ ok none
            | some d ↦ first_sector fs d >>= λ t. ok (some t)
          ])
          else ok (some (s + o + 1))))

  -- Where a cluster has as many sectors as the logarithm says, 128 at most, and its sectors end
  -- below 2^64, every sector of it is found in this cluster, and is followed by the next sector of
  -- the cluster, or at its end by the first sector of the next cluster in the table.
  pub sector_correct :
      fs.cluster_size_sct ≡ 2 ^ fs.log_cls_size_sct
      → fs.log_cls_size_sct < 8
      → 2 ≤ c
      → c < 2 ^ 32
      → o < 2 ^ fs.log_cls_size_sct
      → Fits fs c
      → Returns IsSectorOf (first_sector fs c)
  unfolding first_sector find_cluster next_sector
  sector_correct size h low high inside fits =
      let (q, r) = quotient_at fs.log_cls_size_sct (c - 2) o h inside in
      let base = fs.data_begin_sct + (c - 2) * 2 ^ fs.log_cls_size_sct in
      let back : base + o - fs.data_begin_sct ≡ (c - 2) * 2 ^ fs.log_cls_size_sct + o =
        omega arith in
      Returns-of {a = base}
        (ground (
          arith,
          size,
          sub_usize-ok c 2 low,
          mul_usize-ok (c - 2) (2 ^ fs.log_cls_size_sct) (omega arith),
          add_usize-ok fs.data_begin_sct ((c - 2) * 2 ^ fs.log_cls_size_sct) (omega arith),
        ))
        (
          ground (
            arith,
            q,
            back,
            sub_usize-ok (base + o) fs.data_begin_sct (omega arith),
            add_usize-ok (c - 2) 2 (omega arith),
          ),
          ground (
            arith,
            q,
            r,
            back,
            sub_usize-ok (base + o) fs.data_begin_sct (omega arith),
            add_usize-ok (c - 2) 2 (omega arith),
            add_usize-ok (base + o) 1 (omega arith),
          ),
        )
