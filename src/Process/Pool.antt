-- ===== src/Process/Pool.antt =====
-- The identifiers that a table takes from its pool.
use mankoros.Base.{
  ok-injective, ℕ, zero, suc, ◌+◌, ◌-◌, ◌≤◌, ◌<◌, ◌≡◌, refl, ap, List, [], ◌∷◌, ◌++◌, leb, length,
  Run, ok, arith, inl, inr, Bool-cases, Returns, returns, Returns-bind, usize_mod, add_usize-ok,
}
use mankoros.Pid
use mankoros.Pid.{UsizePool, IsPooled, occurs, get-IsPooled, release-IsPooled, take_from}
use mankoros.Process.Fds.{skip_below, release_all_of, skip_fuel, greater_than, new_fd_no}

-- the pool says of the identifiers in use only how often each is
pub IsPooled-cong :
    (start : ℕ) (l k : List ℕ) (p : UsizePool)
    → ((n : ℕ) → occurs n l ≡ occurs n k)
    → IsPooled start l p
    → IsPooled start k p
IsPooled-cong start l k p e (h, q) = (h, λ n. omega (arith, e n, q n))

occurs-append : (n : ℕ) (l k : List ℕ) → occurs n (l ++ k) ≡ occurs n l + occurs n k
occurs-append n [] k = omega arith
occurs-append n (x ∷ l) k = ground (arith, occurs-append n l k)

-- how many identifiers are below the bound at most before one is found
abbrev pub left_below : UsizePool → ℕ → ℕ
left_below p lower_bound = length p.recycled + (lower_bound - p.next)

-- an identifier below the bound leaves fewer of them, and the new ones stay below it
abbrev Fewer : ℕ → UsizePool → UsizePool → Type 0
Fewer lower_bound p p' =
    (left_below p' lower_bound < left_below p lower_bound)
    × (p'.next + (lower_bound - p'.next) ≤ p.next + (lower_bound - p.next))

take_from-Fewer :
    (next : ℕ) (l : List ℕ) (lower_bound fd : ℕ) (p' : UsizePool)
    → take_from next l ≡ ok (fd, p')
    → fd < lower_bound
    → next + 1 < usize_mod
    → Fewer lower_bound (record { next = next; recycled = l }) p'
unfolding take_from
take_from-Fewer next [] lower_bound fd p' e less b =
    let r : take_from next [] ≡ ok (next, record { next = next + 1; recycled = [] }) =
      rw (add_usize-ok next 1 b) refl in
    let same = ok-injective e r in
    let f : fd ≡ next = ap (λ t. t.0) same in
    let q : p' ≡ record { next = next + 1; recycled = [] } = ap (λ t. t.1) same in
    rw q (omega (arith, f), omega (arith, f))
take_from-Fewer next (x ∷ l) lower_bound fd p' e less b =
    let same = ok-injective e refl in
    let q : p' ≡ record { next = next; recycled = l } = ap (λ t. t.1) same in
    rw q (omega arith, omega arith)

get-Fewer :
    (p : UsizePool) (lower_bound fd : ℕ) (p' : UsizePool)
    → Pid.get p ≡ ok (fd, p')
    → fd < lower_bound
    → p.next + 1 < usize_mod
    → Fewer lower_bound p p'
unfolding Pid.get
get-Fewer p lower_bound fd p' e l b = take_from-Fewer p.next p.recycled lower_bound fd p' e l b

pub Returns-with :
    {A : Type 0} {P : A → Type 0} {call : Run A}
    → Returns P call
    → Returns (λ t. (call ≡ ok t) × P t) call
Returns-with (returns p) = returns (refl, p)

fresh_left : (n fd : ℕ) (live : List ℕ) → occurs n (fd ∷ live) ≡ 0 → occurs n live ≡ 0
fresh_left n fd live g = ground arith

moved :
    (skipped : List ℕ) (n fd : ℕ) (live : List ℕ) (k : ℕ)
    → occurs k (skipped ++ n ∷ fd ∷ live) ≡ occurs k (fd ∷ skipped ++ n ∷ live)
moved skipped n fd live k =
    ground (arith, occurs-append k skipped (n ∷ fd ∷ live), occurs-append k skipped (n ∷ live))

-- the loop of `dup` takes an identifier that is large enough, and the others are in use until they are
-- returned
skip_below_correct :
    (fuel : ℕ) (start : ℕ) (live : List ℕ) (pool : UsizePool) (lower_bound : ℕ)
    → left_below pool lower_bound < fuel
    → IsPooled start live pool
    → pool.next + (lower_bound - pool.next) + 1 < usize_mod
    → Returns
        (λ (fd, skipped, p).
          (lower_bound ≤ fd) × (occurs fd live ≡ 0) × IsPooled start (skipped ++ fd ∷ live) p)
        (skip_below fuel pool lower_bound)
unfolding skip_below
skip_below_correct zero start live pool lower_bound f h b = absurd (omega arith)
skip_below_correct (suc fuel) start live pool lower_bound f h b =
    Returns-bind (Returns-with (get-IsPooled start live pool h (omega arith)))
      (λ (fd, pool') (e, (fresh, h')). elim (Bool-cases (leb lower_bound fd)) [
        | inl enough ↦ rw enough (returns (ground (arith, enough), fresh, h'))
        | inr below_ ↦
            let less =
              get-Fewer pool lower_bound fd pool' e (ground (arith, below_)) (omega arith) in
            rw below_ (
              Returns-bind
                (skip_below_correct fuel start (fd ∷ live) pool' lower_bound (omega (arith, less))
                  h' (omega (arith, less)))
                (λ (n, skipped, p) (l, g, q). returns (
                  l,
                  fresh_left n fd live g,
                  IsPooled-cong start (skipped ++ n ∷ fd ∷ live) (fd ∷ skipped ++ n ∷ live) p
                      (moved skipped n fd live) q,
                )))
      ])

release_all_of_correct :
    (start : ℕ) (skipped live : List ℕ) (pool : UsizePool)
    → IsPooled start (skipped ++ live) pool
    → Returns (IsPooled start live) (release_all_of skipped pool)
release_all_of_correct start [] live pool h = returns h
release_all_of_correct start (fd ∷ skipped) live pool h =
    Returns-bind (release-IsPooled start fd (skipped ++ live) pool h)
      (λ p q. release_all_of_correct start skipped live p q)

-- `dup` gets a number that is not in use and large enough, and the pool keeps account of it, where it asks the
-- pool: the loop ends, and what it skips is given back.
pub new_fd_no_correct :
    (start : ℕ) (live : List ℕ) (pool : UsizePool) (lower_bound : ℕ)
    → IsPooled start live pool
    → pool.next + (lower_bound - pool.next) + 1 < usize_mod
    → Returns
        (λ (fd, p). (lower_bound ≤ fd) × (occurs fd live ≡ 0) × IsPooled start (fd ∷ live) p)
        (new_fd_no pool (greater_than lower_bound))
unfolding new_fd_no
new_fd_no_correct start live pool lower_bound h b =
    Returns-bind
      (skip_below_correct (skip_fuel pool lower_bound) start live pool lower_bound (omega arith) h
        b)
      (λ (fd, skipped, p) (l, g, q).
        Returns-bind (release_all_of_correct start skipped (fd ∷ live) p q)
          (λ p' q'. returns (l, g, q')))
