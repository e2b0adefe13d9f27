-- ===== src/Pid.antt =====
-- src/tools/handler_pool.rs and src/process/pid.rs: the pool of identifiers. The vector of recycled ones is
-- a list with its last element first.
use mankoros.Base.{
  ℕ, suc, ◌+◌, ◌≤◌, ◌<◌, ◌≡◌, refl, Bool, false, not, ◌&&◌, ◌||◌, List, [], ◌∷◌, leb, ltb, ◌==◌,
  if◌then◌else◌, Run, ok, ◌>>=◌, ◌>>◌, assert, add_usize, add_usize-ok, usize_mod, Returns,
  Returns-of, returns, arith,
}

pub record UsizePool : Type 0 where
  pub next : ℕ
  pub recycled : List ℕ

unfoldable pub new : ℕ → UsizePool
new start = record { next = start; recycled = [] }

unfoldable pub contains : ℕ → List ℕ → Bool
contains n [] = false
contains n (x ∷ l) = (x == n) || contains n l

-- the arms of `get` and of `alloc_pid`
unfoldable pub take_from : ℕ → List ℕ → Run (ℕ × UsizePool)
take_from next [] = add_usize next 1 >>= λ n. ok (next, record { next = n; recycled = [] })
take_from next (pid ∷ l) = ok (pid, record { next = next; recycled = l })

unfoldable pub get : UsizePool → Run (ℕ × UsizePool)
get p = take_from p.next p.recycled

unfoldable pub release : UsizePool → ℕ → Run UsizePool
release p pid =
    assert (not (contains pid p.recycled)) >> ok (record p { recycled = pid ∷ p.recycled })

abbrev pub occurs : ℕ → List ℕ → ℕ
occurs n [] = 0
occurs n (x ∷ l) = if x == n then suc (occurs n l) else occurs n l

-- every identifier that was handed out is in use or recycled, and once
abbrev pub IsPooled : ℕ → List ℕ → UsizePool → Type 0
IsPooled start live p =
    (start ≤ p.next)
    × ((n : ℕ)
        → occurs n live + occurs n p.recycled ≡ (if leb start n && ltb n p.next then 1 else 0))

take_from-IsPooled :
    (start next : ℕ) (live l : List ℕ)
    → IsPooled start live (record { next = next; recycled = l })
    → next + 1 < usize_mod
    → Returns (λ (id, p). (occurs id live ≡ 0) × IsPooled start (id ∷ live) p) (take_from next l)
unfolding take_from
take_from-IsPooled start next live [] (h, p) b =
    Returns-of {a = (next, record { next = next + 1; recycled = [] })}
      (ground (arith, add_usize-ok next 1 b))
      (ground (arith, p next), (omega arith, λ n. ground (arith, p n)))
take_from-IsPooled start next live (pid ∷ l) (h, p) b =
    returns (ground (arith, p pid), (h, λ n. ground (arith, p n)))

-- While fewer than 2^64 - 1 identifiers are handed out, an identifier taken from the pool is not in
-- use, and each one in use or recycled is so once, before and after.
pub get-IsPooled :
    (start : ℕ) (live : List ℕ) (p : UsizePool)
    → IsPooled start live p
    → p.next + 1 < usize_mod
    → Returns (λ (id, p'). (occurs id live ≡ 0) × IsPooled start (id ∷ live) p') (get p)
unfolding get
get-IsPooled start live p h b = take_from-IsPooled start p.next live p.recycled h b

contains-occurs : (n : ℕ) (l : List ℕ) → occurs n l ≡ 0 → contains n l ≡ false
unfolding contains
contains-occurs n [] e = refl
contains-occurs n (x ∷ l) e = ground (arith, contains-occurs n l)

-- Giving back an identifier in use does not panic, and keeps the pool.
pub release-IsPooled :
    (start id : ℕ) (live : List ℕ) (p : UsizePool)
    → IsPooled start (id ∷ live) p
    → Returns (IsPooled start live) (release p id)
unfolding release
release-IsPooled start id live p (h, q) =
    Returns-of {a = record p { recycled = id ∷ p.recycled }}
      (ground (arith, contains-occurs id p.recycled (ground (arith, q id))))
      (h, λ n. ground (arith, q n))
