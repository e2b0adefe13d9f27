-- ===== src/Timer/Wake.antt =====
-- Which tasks a tick wakes.
use mankoros.Base.{
  ℕ, zero, suc, ◌+◌, ◌≤◌, ◌<◌, ◌≡◌, ◌==◌, ◌&&◌, refl, true, false, List, [], ◌∷◌, All, leb, ltb,
  if◌then◌else◌, length, inl, inr, Bool-cases, Returns, returns, Returns-bind, arith,
}
use mankoros.Timer.Sleep.{Node, pop_least, wake_loop, wake_ready}

-- how often a node is in a list
abbrev pub count : Node → List Node → ℕ
count x [] = 0
count x (n ∷ ns) =
    (if (n.wake_up_time == x.wake_up_time) && (n.waker == x.waker) then 1 else 0) + count x ns

-- in the order of their times, from a time on
abbrev pub IsOrdered : ℕ → List Node → Type 0
IsOrdered from [] = Unit
IsOrdered from (n ∷ ns) = (from ≤ n.wake_up_time) × IsOrdered n.wake_up_time ns

abbrev pub IsAfter : ℕ → Node → Type 0
IsAfter time n = time < n.wake_up_time

abbrev pub IsFrom : ℕ → Node → Type 0
IsFrom time n = time ≤ n.wake_up_time

abbrev pub IsDue : ℕ → Node → Type 0
IsDue now n = n.wake_up_time ≤ now

IsFrom-trans : (a b : ℕ) (ns : List Node) → a ≤ b → All (IsFrom b) ns → All (IsFrom a) ns
IsFrom-trans a b [] h p = tt
IsFrom-trans a b (n ∷ ns) h p = (omega (arith, p.0), IsFrom-trans a b ns h p.1)

IsAfter-from : (now b : ℕ) (ns : List Node) → now < b → All (IsFrom b) ns → All (IsAfter now) ns
IsAfter-from now b [] h p = tt
IsAfter-from now b (n ∷ ns) h p = (omega (arith, p.0), IsAfter-from now b ns h p.1)

module _ (n : Node) (m : Node) (ns : List Node) where
  pop_least-here :
      leb n.wake_up_time (pop_least m ns).0.wake_up_time ≡ true → pop_least n (m ∷ ns) ≡ (n, m ∷ ns)
  unfolding pop_least
  pop_least-here h = rw h refl

  pop_least-there :
      leb n.wake_up_time (pop_least m ns).0.wake_up_time ≡ false
      → pop_least n (m ∷ ns) ≡ ((pop_least m ns).0, n ∷ (pop_least m ns).1)
  unfolding pop_least
  pop_least-there h = rw h refl

-- What a pop gives: a node that none comes before, the others, and nothing else.
record IsPopped (n : Node) (ns : List Node) (least : Node) (others : List Node) : Type 0 where
  first : All (IsFrom least.wake_up_time) (n ∷ ns)
  counted : (x : Node) → count x (least ∷ others) ≡ count x (n ∷ ns)
  shorter : length others ≡ length ns
  kept : (time : ℕ) → All (IsFrom time) (n ∷ ns) → All (IsFrom time) (least ∷ others)

pop_least-IsPopped :
    (n : Node) (ns : List Node) → IsPopped n ns (pop_least n ns).0 (pop_least n ns).1
unfolding pop_least
pop_least-IsPopped n [] = record {
  first = (omega arith, tt);
  counted = λ x. refl;
  shorter = refl;
  kept = λ time h. h;
}
pop_least-IsPopped n (m ∷ ns) =
    let again = pop_least-IsPopped m ns in
    elim (Bool-cases (leb n.wake_up_time (pop_least m ns).0.wake_up_time)) [
      | inl here ↦ rw (pop_least-here n m ns here) (record {
        first = (
          omega arith,
          IsFrom-trans n.wake_up_time (pop_least m ns).0.wake_up_time (m ∷ ns)
              (ground (arith, here)) again.first,
        );
        counted = λ x. refl;
        shorter = refl;
        kept = λ time h. h;
      })
      | inr there ↦ rw (pop_least-there n m ns there) (record {
        first = (ground (arith, there), again.first);
        counted = λ x. omega (arith, again.counted x);
        shorter = omega (arith, again.shorter);
        kept = λ time h. let k = again.kept time h.1 in (k.0, (h.0, k.1));
      })
    ]

-- what the wakers that are woken and the nodes that are left are
abbrev pub Woken : ℕ → ℕ → List Node → List Node × List Node → Type 0
Woken now from heap (woken, left) =
    ((x : Node) → count x woken + count x left ≡ count x heap)
    × All (IsDue now) woken
    × IsOrdered from woken
    × All (IsAfter now) left

wake_loop_correct :
    (fuel now from : ℕ) (heap : List Node)
    → length heap < fuel
    → All (IsFrom from) heap
    → Returns (Woken now from heap) (wake_loop fuel now heap)
unfolding wake_loop
wake_loop_correct zero now from heap h f = absurd (omega arith)
wake_loop_correct (suc fuel) now from [] h f = returns (λ x. refl, tt, tt, tt)
wake_loop_correct (suc fuel) now from (n ∷ ns) h f =
    let p = pop_least-IsPopped n ns in
    let least = (pop_least n ns).0 in
    elim (Bool-cases (ltb now least.wake_up_time)) [
      | inl later ↦ rw later (
          returns (
            λ x. omega arith,
            tt,
            tt,
            IsAfter-from now least.wake_up_time (n ∷ ns) (ground (arith, later)) p.first,
          ))
      | inr due ↦ rw due (
          Returns-bind
            (wake_loop_correct fuel now least.wake_up_time (pop_least n ns).1
              (omega (arith, p.shorter)) (p.kept least.wake_up_time p.first).1)
            (λ (woken, left) (c, d, o, l). returns (
              λ x. omega (arith, c x, p.counted x),
              (ground (arith, due), d),
              ((p.kept from f).0, o),
              l,
            )))
    ]

IsFrom-zero : (ns : List Node) → All (IsFrom 0) ns
IsFrom-zero [] = tt
IsFrom-zero (n ∷ ns) = (omega arith, IsFrom-zero ns)

-- A tick ends, and wakes exactly the nodes of the queue whose time has come, each as often as it is there, in the
-- order of their times; the others stay in the queue.
pub wake_ready_correct :
    (now : ℕ) (heap : List Node) → Returns (Woken now 0 heap) (wake_ready now heap)
unfolding wake_ready
wake_ready_correct now heap =
    wake_loop_correct (length heap + 1) now 0 heap (omega arith) (IsFrom-zero heap)
