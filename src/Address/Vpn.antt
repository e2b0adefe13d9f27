-- ===== src/Address/Vpn.antt =====
-- src/memory/address/virt.rs: ranges of addresses rounded to pages, and the walk over their pages.
-- The closure of `iter_vpn` is called for the pages of the list, in order.
use mankoros.Base.{
  ℕ, zero, suc, ◌+◌, ◌-◌, ◌*◌, ◌/◌, ◌%◌, ◌≤◌, ◌<◌, ◌≡◌, List, [], ◌∷◌, Bool, ◌||◌, false, ◌==◌,
  ◌&&◌, leb, ltb, Run, ok, ◌>>=◌, usize_mod, Returns, Returns-inv, Returns-of, arith,
}
use mankoros.Address.Page.{page_size}
use mankoros.Address.Virt.{floor, ceil, page_num, ceil_correct}

unfoldable pub round_range_4k : ℕ → ℕ → Run (ℕ × ℕ)
unfolding floor
round_range_4k start end = ceil end >>= λ e. ok (floor start, e)

unfoldable pub round_range : ℕ → ℕ → Run (ℕ × ℕ)
unfolding floor
round_range start end = ceil end >>= λ e. ok (floor start, e)

unfoldable pub round_range_vpn : ℕ → ℕ → Run (ℕ × ℕ)
unfolding round_range_4k page_num
round_range_vpn start end = round_range_4k start end >>= λ (s, e). ok (page_num s, page_num e)

-- `while vpn < range.end { f(vpn); vpn += 1; }` for as many rounds as there are pages
unfoldable pub vpns : ℕ → ℕ → List ℕ
vpns vpn zero = []
vpns vpn (suc n) = vpn ∷ vpns (vpn + 1) n

unfoldable pub iter_vpn : ℕ → ℕ → Run (List ℕ)
unfolding round_range_vpn vpns
iter_vpn start end = round_range_vpn start end >>= λ (s, e). ok (vpns s (e - s))

-- the page is visited
unfoldable pub visits : ℕ → List ℕ → Bool
visits n [] = false
visits n (v ∷ l) = (v == n) || visits n l

visits-vpns : (vpn count n : ℕ) → visits n (vpns vpn count) ≡ (leb vpn n && ltb n (vpn + count))
unfolding visits vpns
visits-vpns vpn zero n = ground arith
visits-vpns vpn (suc count) n = ground (arith, visits-vpns (vpn + 1) count n)

-- `iter_vpn` of a non-empty range does not panic below the top of the address space, and visits a
-- page exactly where it has an address of the range, whether or not the ends are page-aligned.
pub iter_vpn_correct :
    (start end : ℕ)
    → start < end
    → end + page_size < usize_mod
    → Returns
        (λ l. (n : ℕ) → visits n l ≡ (ltb start ((n + 1) * page_size) && ltb (n * page_size) end))
        (iter_vpn start end)
unfolding iter_vpn
iter_vpn_correct start end h b =
    let (e, is, above, below, aligned) = ceil_parts in
    Returns-of {a = vpns (start / page_size) (e / page_size - start / page_size)}
      (unfold floor page_num in ground (arith, is))
      λ n. ground (arith, visits-vpns (start / page_size) (e / page_size - start / page_size) n)
  where
    ceil_parts :
        (e : ℕ) × (ceil end ≡ ok e) × (end ≤ e) × (e < end + page_size) × (e % page_size ≡ 0)
    ceil_parts = let (e, is, h') = Returns-inv (ceil_correct end b) in (e, is, h'.0, h'.1, h'.2)
