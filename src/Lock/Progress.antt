-- ===== src/Lock/Progress.antt =====
-- A task that is polled without being woken leaves a waker behind, which takes the turn of another one.
use mankoros.Base.{ℕ, if◌then◌else◌, update}
use mankoros.Lock.Sleep.{poll, drop_guard, away, runs_lock, sleeps, owns, System, start, wake}

-- the states of the run: `o` takes the lock, `b` waits and is polled once more, `u` waits; `o` drops the guard,
-- `b` is woken, takes the lock and drops it, which wakes `b` once more
abbrev does_ask : System → ℕ → System
does_ask s t = record s { tasks = update s.tasks t runs_lock }

abbrev does_poll : System → ℕ → System
does_poll s t = record {
  inner = (poll s.inner t).1;
  tasks = update s.tasks t (if (poll s.inner t).0 then owns else sleeps);
}

abbrev does_drop : System → ℕ → System
does_drop s t = record {
  inner = (drop_guard s.inner).1;
  tasks = wake (drop_guard s.inner).0 (update s.tasks t away);
}

abbrev before_drops : ℕ → ℕ → ℕ → System
before_drops o b u =
    does_poll (does_ask (does_poll (does_poll (does_ask (does_poll (does_ask start o) o) b) b) b) u)
      u
