-- ===== src/Lock/Sleepers.antt =====
-- One task at a time owns the sleep lock, and a task that sleeps is in the queue.
use mankoros.Base.{
  ℕ, ◌+◌, ◌≤◌, ◌≡◌, ◌≢◌, refl, sym, ap, ◌∙◌, Bool, true, false, ◌==◌, if◌then◌else◌, update, List,
  [], ◌∷◌, ◌++◌, arith, ◌⊎◌, inl, inr, Bool-cases,
}
use mathlib.Core.Path.{subst}
use mankoros.Lock.Sleep.{
  new, poll, drop_guard, pop_front, TaskState, away, runs_lock, sleeps, owns, System, start, wake,
  woken, Step, asks, polled, gives_up, drops, Steps, stay, step,
}

-- how often a task waits in the queue
abbrev pub count : ℕ → List ℕ → ℕ
count t [] = 0
count t (w ∷ ws) = (if t == w then 1 else 0) + count t ws

abbrev pub as_sleeper : TaskState → ℕ
as_sleeper away = 0
as_sleeper runs_lock = 0
as_sleeper sleeps = 1
as_sleeper owns = 0

-- the flag is set exactly while one task owns the lock, and no other does
abbrev pub IsOwned : Bool → (ℕ → TaskState) → Type 0
IsOwned holding tasks =
    ((holding ≡ false) × ((t : ℕ) → tasks t ≢ owns))
    ⊎ ((o : ℕ) × (holding ≡ true) × (tasks o ≡ owns) × ((t : ℕ) → tasks t ≡ owns → t ≡ o))

-- one task at most owns the lock, which it does exactly while the flag is set, and a task that sleeps waits in
-- the queue
pub record IsSound (s : System) : Type 0 where
  pub owned : IsOwned s.inner.holding s.tasks
  pub queued : (t : ℕ) → as_sleeper (s.tasks t) ≤ count t s.inner.waiting

count-append :
    (t w : ℕ) (ws : List ℕ) → count t (ws ++ w ∷ []) ≡ count t ws + (if t == w then 1 else 0)
count-append t w [] = omega arith
count-append t w (v ∷ ws) = omega (arith, count-append t w ws)

pub update-here : (f : ℕ → TaskState) (t : ℕ) (x : TaskState) → update f t x t ≡ x
update-here f t x = ground arith

pub update-there : (f : ℕ → TaskState) (t u : ℕ) (x : TaskState) → u ≢ t → update f t x u ≡ f u
update-there f t u x h = ground arith

runs-owns : runs_lock ≢ owns
runs-owns h = absurd (cc)

sleeps-owns : sleeps ≢ owns
sleeps-owns h = absurd (cc)

away-owns : away ≢ owns
away-owns h = absurd (cc)

not_owner : (x : TaskState) → (x ≡ runs_lock) ⊎ (x ≡ sleeps) → x ≢ owns
not_owner x (inl h) e = runs-owns (sym h ∙ e)
not_owner x (inr h) e = sleeps-owns (sym h ∙ e)

-- what the waker of a task does to it: nothing, or it is polled again
woken-cases : (x : TaskState) → (woken x ≡ x) ⊎ ((x ≡ sleeps) × (woken x ≡ runs_lock))
woken-cases away = inl refl
woken-cases runs_lock = inl refl
woken-cases sleeps = inr (refl, refl)
woken-cases owns = inl refl

woken-sleeper : (x : TaskState) → as_sleeper (woken x) ≡ 0
woken-sleeper away = refl
woken-sleeper runs_lock = refl
woken-sleeper sleeps = refl
woken-sleeper owns = refl

IsOwned-cong : (b : Bool) (f g : ℕ → TaskState) → ((u : ℕ) → g u ≡ f u) → IsOwned b f → IsOwned b g
IsOwned-cong b f g h (inl (e, k)) = inl (e, λ u w. k u (sym (h u) ∙ w))
IsOwned-cong b f g h (inr (o, e, w, k)) = inr (o, e, h o ∙ w, λ u v. k u (sym (h u) ∙ v))

-- a task that does not own the lock changes to another state without it
IsOwned-other :
    (b : Bool) (f : ℕ → TaskState) (t : ℕ) (x : TaskState)
    → IsOwned b f
    → f t ≢ owns
    → x ≢ owns
    → IsOwned b (update f t x)
IsOwned-other b f t x (inl (e, h)) d c = inl (
  e,
  λ u g. elim (Bool-cases (u == t)) [
    | inl same ↦ c (ground (arith, same, g))
    | inr apart ↦ h u (ground (arith, apart, g))
  ],
)
IsOwned-other b f t x (inr (o, e, h, k)) d c =
    let apart : o ≢ t = λ same. d (ap f (sym same) ∙ h) in
    inr (
      o,
      e,
      update-there f t o x apart ∙ h,
      λ u g. elim (Bool-cases (u == t)) [
        | inl same ↦ absurd (c (ground (arith, same, g)))
        | inr away_ ↦ k u (ground (arith, away_, g))
      ],
    )

IsOwned-take :
    (b : Bool) (f : ℕ → TaskState) (t : ℕ)
    → IsOwned b f
    → b ≡ false
    → IsOwned true (update f t owns)
IsOwned-take b f t (inl (e, h)) z = inr (
  t,
  refl,
  update-here f t owns,
  λ u g. elim (Bool-cases (u == t)) [
    | inl same ↦ ground (arith, same)
    | inr apart ↦ absurd (h u (ground (arith, apart, g)))
  ],
)
IsOwned-take b f t (inr (o, e, h, k)) z = absurd (cc)

IsOwned-leave :
    (b : Bool) (f : ℕ → TaskState) (t : ℕ)
    → IsOwned b f
    → f t ≡ owns
    → IsOwned false (update f t away)
IsOwned-leave b f t (inl (e, h)) z = absurd (h t z)
IsOwned-leave b f t (inr (o, e, h, k)) z = inl (
  refl,
  λ u g. elim (Bool-cases (u == t)) [
    | inl same ↦ away-owns (ground (arith, same, g))
    | inr apart ↦
        let was : f u ≡ owns = ground (arith, apart, g) in
        let same : u ≡ t = k u was ∙ sym (k t z) in ground (arith, apart, same)
  ],
)

IsOwned-wake :
    (b : Bool) (f : ℕ → TaskState) (w : ℕ) → IsOwned b f → IsOwned b (update f w (woken (f w)))
IsOwned-wake b f w i = elim (woken-cases (f w)) [
  | inl same ↦
      IsOwned-cong b f (update f w (woken (f w)))
        (λ u. elim (Bool-cases (u == w)) [
          | inl here ↦
              let e : u ≡ w = ground (arith, here) in rw (e, update-here f w (woken (f w))) same
          | inr apart ↦ update-there f w u (woken (f w)) (ground (arith, apart))
        ])
        i
  | inr (asleep, polls) ↦
      rw polls (IsOwned-other b f w runs_lock i (not_owner (f w) (inr asleep)) runs-owns)
]

asks-IsSound :
    (s : System) (t : ℕ)
    → s.tasks t ≡ away
    → IsSound s
    → IsSound (record s { tasks = update s.tasks t runs_lock })
asks-IsSound s t h i = record {
  owned = IsOwned-other _ s.tasks t runs_lock i.owned (λ e. absurd (cc (h, e))) runs-owns;
  queued = λ u. ground (arith, i.queued u);
}

gives_up-IsSound :
    (s : System) (t : ℕ)
    → (s.tasks t ≡ runs_lock) ⊎ (s.tasks t ≡ sleeps)
    → IsSound s
    → IsSound (record s { tasks = update s.tasks t away })
gives_up-IsSound s t h i = record {
  owned = IsOwned-other _ s.tasks t away i.owned (not_owner (s.tasks t) h) away-owns;
  queued = λ u. ground (arith, i.queued u);
}

polled-IsSound :
    (s : System) (t : ℕ)
    → (s.tasks t ≡ runs_lock) ⊎ (s.tasks t ≡ sleeps)
    → IsSound s
    → IsSound (record {
      inner = (poll s.inner t).1;
      tasks = update s.tasks t (if (poll s.inner t).0 then owns else sleeps);
    })
unfolding poll
polled-IsSound s t h i = elim (Bool-cases s.inner.holding) [
  | inl held ↦ simp held (record {
    owned =
        IsOwned-other true s.tasks t sleeps (subst (λ b. IsOwned b s.tasks) held i.owned)
          (not_owner (s.tasks t) h) sleeps-owns;
    queued = λ u. ground (arith, i.queued u, count-append u t s.inner.waiting);
  })
  | inr free ↦ simp free (record {
    owned = IsOwned-take s.inner.holding s.tasks t i.owned free;
    queued = λ u. ground (arith, i.queued u);
  })
]

-- the drop of the guard, once the state of the queue is known
dropped-IsSound :
    (s : System) (t : ℕ) (ws : List ℕ)
    → s.inner.waiting ≡ ws
    → s.tasks t ≡ owns
    → IsSound s
    → IsSound (record {
      inner = (pop_front (record s.inner { holding = false }) ws).1;
      tasks = wake (pop_front (record s.inner { holding = false }) ws).0 (update s.tasks t away);
    })
dropped-IsSound s t [] e h i = record {
  owned = IsOwned-leave s.inner.holding s.tasks t i.owned h;
  queued = λ u. ground (arith, i.queued u);
}
dropped-IsSound s t (w ∷ ws) e h i =
    let q : (u : ℕ) → as_sleeper (s.tasks u) ≤ count u (w ∷ ws) =
      λ u. subst (λ l. as_sleeper (s.tasks u) ≤ count u l) e (i.queued u) in
    record {
      owned =
          IsOwned-wake false (update s.tasks t away) w
            (IsOwned-leave s.inner.holding s.tasks t i.owned h);
      queued = λ u. ground (arith, q u, woken-sleeper (update s.tasks t away w));
    }

pub Step-IsSound : (s t : System) → Step s t → IsSound s → IsSound t
unfolding drop_guard
Step-IsSound s t (asks u h) i = asks-IsSound s u h i
Step-IsSound s t (polled u h) i = polled-IsSound s u h i
Step-IsSound s t (gives_up u h) i = gives_up-IsSound s u h i
Step-IsSound s t (drops u h) i = dropped-IsSound s u s.inner.waiting refl h i

-- Through any steps of the tasks, which may poll without being woken, from a state where that is
-- so, one task at most owns the sleep lock, which it does exactly while the flag is set, and every
-- task that sleeps is in the queue.
pub Steps-IsSound : (s t : System) → Steps s t → IsSound s → IsSound t
Steps-IsSound s t stay i = i
Steps-IsSound s t (step {t = u} p q) i = Steps-IsSound u t q (Step-IsSound s u p i)

pub start-IsSound : IsSound start
unfolding start new
start-IsSound = record { owned = inl (refl, λ t. away-owns); queued = λ t. omega arith }

-- No two tasks own the lock at once, whatever the tasks did since the start.
pub start-excludes :
    (s : System) (t u : ℕ) → Steps start s → s.tasks t ≡ owns → s.tasks u ≡ owns → t ≡ u
start-excludes s t u p h k = elim (Steps-IsSound start s p start-IsSound).owned [
  | inl (e, none_owns) ↦ absurd (none_owns t h)
  | inr (o, e, f, one) ↦ one t h ∙ sym (one u k)
]
