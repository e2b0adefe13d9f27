-- ===== src/Lock/Spinners.antt =====
-- One hart at a time holds the spinning lock; and a hart may be taken for its own owner.
use mankoros.Base.{
  ℕ, ◌≡◌, ◌≢◌, refl, sym, ap, ◌∙◌, Bool, true, false, ◌==◌, if◌then◌else◌, arith, ◌⊎◌, inl, inr,
  Bool-cases,
}
use mathlib.Core.Path.{subst}
use mankoros.Lock.Spin.{
  Place, outside, exchanging, failed, waiting, marking, guarded, panicked, Mutex, new, moves,
  exchange, check_owner, spin, mark, drop_guard, Step, calls, exchanges, checks, spins, marks,
  drops, Steps, stay, step,
}

-- the hart has the lock
abbrev pub has_lock : Place → Bool
has_lock outside = false
has_lock exchanging = false
has_lock failed = false
has_lock (waiting n) = false
has_lock marking = true
has_lock guarded = true
has_lock panicked = false

-- the flag is set exactly while one hart has the lock, and no other has
abbrev pub IsExclusive : Mutex → Type 0
IsExclusive m =
    ((m.locked ≡ false) × ((h : ℕ) → has_lock (m.harts h) ≡ false))
    ⊎ ((o : ℕ) × (m.locked ≡ true)
        × (has_lock (m.harts o) ≡ true)
        × ((h : ℕ) → has_lock (m.harts h) ≡ true → h ≡ o))

if-true : (b : Bool) (x y : Mutex) → b ≡ true → (if b then x else y) ≡ x
if-true true x y e = refl
if-true false x y e = absurd (cc)

if-false : (b : Bool) (x y : Mutex) → b ≡ false → (if b then x else y) ≡ y
if-false true x y e = absurd (cc)
if-false false x y e = refl

moves-IsExclusive :
    (m : Mutex) (h : ℕ) (p : Place)
    → has_lock (m.harts h) ≡ has_lock p
    → IsExclusive m
    → IsExclusive (moves m h p)
moves-IsExclusive m h p e (inl (l, none_has)) = inl (l, λ g. ground (arith, none_has g, e))
moves-IsExclusive m h p e (inr (o, l, k, one)) =
    inr (o, l, ground (arith, k, e), λ g has. one g (ground (arith, has, e)))

takes-IsExclusive :
    (m : Mutex) (h : ℕ)
    → m.locked ≡ false
    → IsExclusive m
    → IsExclusive (record (moves m h marking) { locked = true })
takes-IsExclusive m h e (inl (l, none_has)) =
    inr (h, refl, ground arith, λ g has. ground (arith, none_has g, has))
takes-IsExclusive m h e (inr (o, l, k, one)) = absurd (cc)

drops-IsExclusive :
    (m : Mutex) (h : ℕ)
    → has_lock (m.harts h) ≡ true
    → IsExclusive m
    → IsExclusive (record (moves m h outside) { locked = false })
drops-IsExclusive m h e (inl (l, none_has)) = absurd (cc (e, none_has h))
drops-IsExclusive m h e (inr (o, l, k, one)) = inl (
  refl,
  λ g. elim (Bool-cases (g == h)) [
    | inl same ↦ ground (arith, same)
    | inr apart ↦ elim (Bool-cases (has_lock (m.harts g))) [
      | inl has ↦ let same : g ≡ h = one g has ∙ sym (one h e) in ground (arith, same, apart)
      | inr none_ ↦ ground (arith, apart, none_)
    ]
  ],
)

exchange-IsExclusive :
    (m : Mutex) (h : ℕ) → m.harts h ≡ exchanging → IsExclusive m → IsExclusive (exchange m h)
unfolding exchange
exchange-IsExclusive m h e i = elim (Bool-cases m.locked) [
  | inl l ↦
      subst IsExclusive (sym (if-true m.locked _ _ l))
        (moves-IsExclusive m h failed (ap has_lock e) i)
  | inr l ↦ subst IsExclusive (sym (if-false m.locked _ _ l)) (takes-IsExclusive m h l i)
]

spin-IsExclusive :
    (m : Mutex) (h n : ℕ) → m.harts h ≡ waiting n → IsExclusive m → IsExclusive (spin m h n)
unfolding spin
spin-IsExclusive m h n e i = elim (Bool-cases m.locked) [
  | inl l ↦
      subst IsExclusive (sym (if-true m.locked _ _ l))
        (moves-IsExclusive m h _ (ap has_lock e ∙ ground arith) i)
  | inr l ↦
      subst IsExclusive (sym (if-false m.locked _ _ l))
        (moves-IsExclusive m h exchanging (ap has_lock e) i)
]

Step-IsExclusive : (m n : Mutex) → Step m n → IsExclusive m → IsExclusive n
unfolding check_owner mark drop_guard
Step-IsExclusive m n (calls h e) i = moves-IsExclusive m h exchanging (ap has_lock e) i
Step-IsExclusive m n (exchanges h e) i = exchange-IsExclusive m h e i
Step-IsExclusive m n (checks h e) i = moves-IsExclusive m h _ (ap has_lock e ∙ ground arith) i
Step-IsExclusive m n (spins h k e) i = spin-IsExclusive m h k e i
Step-IsExclusive m n (marks h e) i = moves-IsExclusive m h guarded (ap has_lock e) i
Step-IsExclusive m n (drops h e) i = drops-IsExclusive m h (ap has_lock e) i

Steps-IsExclusive : (m n : Mutex) → Steps m n → IsExclusive m → IsExclusive n
Steps-IsExclusive m n stay i = i
Steps-IsExclusive m n (step {n = k} p q) i = Steps-IsExclusive k n q (Step-IsExclusive m k p i)

-- In every state that the harts reach from a new mutex, interleaved between any two accesses to it,
-- no two harts hold the guard.
pub harts-exclude :
    (m : Mutex) (g h : ℕ) → Steps new m → m.harts g ≡ guarded → m.harts h ≡ guarded → g ≡ h
unfolding new
harts-exclude m g h p e f = elim (Steps-IsExclusive new m p (inl (refl, λ k. refl))) [
  | inl (l, none_has) ↦ let z : true ≡ false = ap has_lock (sym e) ∙ none_has g in absurd (cc)
  | inr (o, l, k, one) ↦ one g (ap has_lock e) ∙ sym (one h (ap has_lock f))
]

-- the run where `g` locks and unlocks, and `h` has made its exchange, and not yet left its mark
abbrev first_lock : ℕ → Mutex
first_lock g = drop_guard (mark (exchange (moves new g exchanging) g) g) g

abbrev pub false_alarm : ℕ → ℕ → Mutex
false_alarm g h =
    check_owner (exchange (moves (exchange (moves (first_lock g) h exchanging) h) g exchanging) g) g

-- For any two harts there is a run in which the one that had the mutex before and released it
-- panics as if it held it still, while the other has it and has not yet written its number.
pub false_alarm_correct :
    (g h : ℕ)
    → g ≢ h
    → Steps new (false_alarm g h)
      × ((false_alarm g h).harts g ≡ panicked)
      × ((false_alarm g h).harts h ≡ marking)
unfolding new exchange mark drop_guard check_owner
false_alarm_correct g h d = (
  step (calls g refl) (
      step (exchanges g (ground arith)) (
        step (marks g (ground arith)) (
          step (drops g (ground arith)) (
            step (calls h (ground arith)) (
              step (exchanges h (ground arith)) (
                step (calls g (ground arith))
                  (step (exchanges g (ground arith)) (step (checks g (ground arith)) stay)))))))),
  ground arith,
  ground arith,
)
