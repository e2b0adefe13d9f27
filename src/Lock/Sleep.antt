-- ===== src/Lock/Sleep.antt =====
-- src/sync/sleep.rs: SleepLock, and the tasks that lock it, each identified by its waker. A task that is
-- woken polls again, and one that waits may be polled without that, as `block_on` of src/executor/mod.rs does.
use mankoros.Base.{
  ℕ, ◌≡◌, Bool, true, false, if◌then◌else◌, update, Option, none, some, List, [], ◌∷◌, ◌++◌, ◌⊎◌,
}

pub record SleepLockInner : Type 0 where
  pub holding : Bool
  pub waiting : List ℕ

unfoldable pub new : SleepLockInner
new = record { holding = false; waiting = [] }

-- `poll` of the future of a task: whether it is ready, with the guard
unfoldable pub poll : SleepLockInner → ℕ → Bool × SleepLockInner
poll inner waker =
    if inner.holding
    then (false, record inner { waiting = inner.waiting ++ waker ∷ [] })
    else (true, record inner { holding = true })

abbrev pub pop_front : SleepLockInner → List ℕ → Option ℕ × SleepLockInner
pop_front inner [] = (none, inner)
pop_front inner (w ∷ ws) = (some w, record inner { waiting = ws })

-- the drop of the guard: the task that is woken
unfoldable pub drop_guard : SleepLockInner → Option ℕ × SleepLockInner
drop_guard inner = pop_front (record inner { holding = false }) inner.waiting

-- what a task does with the lock
pub data TaskState : Type 0 where
  away : TaskState
  runs_lock : TaskState
  sleeps : TaskState
  owns : TaskState

pub record System : Type 0 where
  pub inner : SleepLockInner
  pub tasks : ℕ → TaskState

unfoldable pub start : System
start = record { inner = new; tasks = λ t. away }

-- a task that waits for its waker is polled again; the waker of any other does nothing
abbrev pub woken : TaskState → TaskState
woken away = away
woken runs_lock = runs_lock
woken sleeps = runs_lock
woken owns = owns

abbrev pub wake : Option ℕ → (ℕ → TaskState) → ℕ → TaskState
wake none tasks = tasks
wake (some w) tasks = update tasks w (woken (tasks w))

-- a step of one task: it calls `lock`, is polled, also where its waker was not called,
-- drops the future, which leaves its wakers in the queue, or drops the guard
pub data Step : System → System → Type 0 where
  asks :
      {s : System} (t : ℕ)
      → s.tasks t ≡ away
      → Step s (record s { tasks = update s.tasks t runs_lock })
  polled :
      {s : System} (t : ℕ)
      → (s.tasks t ≡ runs_lock) ⊎ (s.tasks t ≡ sleeps)
      → Step s (record {
        inner = (poll s.inner t).1;
        tasks = update s.tasks t (if (poll s.inner t).0 then owns else sleeps);
      })
  gives_up :
      {s : System} (t : ℕ)
      → (s.tasks t ≡ runs_lock) ⊎ (s.tasks t ≡ sleeps)
      → Step s (record s { tasks = update s.tasks t away })
  drops :
      {s : System} (t : ℕ)
      → s.tasks t ≡ owns
      → Step s (record {
        inner = (drop_guard s.inner).1;
        tasks = wake (drop_guard s.inner).0 (update s.tasks t away);
      })

pub data Steps : System → System → Type 0 where
  stay : {s : System} → Steps s s
  step : {s t u : System} → Step s t → Steps t u → Steps s u
