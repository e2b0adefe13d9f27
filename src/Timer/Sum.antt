-- ===== src/Timer/Sum.antt =====
-- What the sum of two times is, and how a process's time is divided.
use mankoros.Base.{
  ℕ, ◌+◌, ◌-◌, ◌*◌, ◌≤◌, ◌<◌, ◌≡◌, leb, ok, ◌>>=◌, usize_mod, Bool-cases, inl, inr, add_usize-ok,
  sub_usize-ok, Returns, Returns-of, arith,
}
use mankoros.Timer.Defs.{
  TimeSpec, TimeStat, nsec_per_sec, timespec_add, kernel_to_user, user_to_kernel,
}

-- the nanoseconds of a time
abbrev pub nanoseconds : TimeSpec → ℕ
nanoseconds t = t.sec * nsec_per_sec + t.nsec

-- The sum of two times with less than a second of nanoseconds each does not panic below 2^64 - 1
-- seconds, has less than a second of nanoseconds again, and is the sum of their nanoseconds.
pub timespec_add_correct :
    (a b : TimeSpec)
    → a.nsec < nsec_per_sec
    → b.nsec < nsec_per_sec
    → a.sec + b.sec + 1 < usize_mod
    → Returns
        (λ t. (t.nsec < nsec_per_sec) × (nanoseconds t ≡ nanoseconds a + nanoseconds b))
        (timespec_add a b)
unfolding timespec_add
timespec_add_correct a b p q h = elim (Bool-cases (leb nsec_per_sec (a.nsec + b.nsec))) [
  | inl carry ↦
      let more : nsec_per_sec ≤ a.nsec + b.nsec = ground arith in
      Returns-of {a = record { sec = a.sec + b.sec + 1; nsec = a.nsec + b.nsec - nsec_per_sec }}
        (ground (
          arith,
          carry,
          add_usize-ok a.sec b.sec (omega arith),
          add_usize-ok a.nsec b.nsec (omega arith),
          add_usize-ok (a.sec + b.sec) 1 h,
        ))
        (omega arith, omega arith)
  | inr fits ↦
      let less : a.nsec + b.nsec < nsec_per_sec = ground arith in
      Returns-of {a = record { sec = a.sec + b.sec; nsec = a.nsec + b.nsec }}
        (ground (
          arith,
          fits,
          add_usize-ok a.sec b.sec (omega arith),
          add_usize-ok a.nsec b.nsec (omega arith),
        ))
        (omega arith, omega arith)
]

-- Into user mode and back, with a clock that does not go back, the time since the last entry into the
-- kernel is added in full, up to the first switch as system time and from there as user time.
pub kernel_to_user-user_to_kernel :
    (s : TimeStat) (t u : ℕ)
    → s.kernel_tick ≤ t
    → t ≤ u
    → s.stime_us + u < usize_mod
    → s.utime_us + u < usize_mod
    → (kernel_to_user s t >>= λ s'. user_to_kernel s' u)
      ≡ ok (record s {
        stime_us = s.stime_us + (t - s.kernel_tick);
        utime_us = s.utime_us + (u - t);
        user_tick = t;
        kernel_tick = u;
      })
unfolding kernel_to_user user_to_kernel
kernel_to_user-user_to_kernel s t u p q a b = ground (
  arith,
  sub_usize-ok t s.kernel_tick p,
  sub_usize-ok u t q,
  add_usize-ok s.stime_us (t - s.kernel_tick) (omega arith),
  add_usize-ok s.utime_us (u - t) (omega arith),
)
