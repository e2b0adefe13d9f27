-- ===== src/Timer/Defs.antt =====
-- src/timer: times of seconds and a fraction, and the times that a process has run. `now` is the clock
-- in microseconds.
use mankoros.Base.{
  ℕ, ◌-◌, ◌/◌, ◌%◌, leb, if◌then◌else◌, Run, ok, ◌>>=◌, add_usize, sub_usize, mul_usize,
}

abbrev pub nsec_per_sec : ℕ
nsec_per_sec = 1000000000

abbrev pub usec_per_sec : ℕ
usec_per_sec = 1000000

pub record TimeSpec : Type 0 where
  pub sec : ℕ
  pub nsec : ℕ

unfoldable pub timespec_now : ℕ → Run TimeSpec
timespec_now now_us = do
  nsec ← mul_usize (now_us % 1000000) 1000
  ok (record { sec = now_us / 1000000; nsec = nsec })

unfoldable pub timespec_in_ms : TimeSpec → Run ℕ
timespec_in_ms t = mul_usize t.sec 1000 >>= λ ms. add_usize ms (t.nsec / 1000000)

unfoldable pub timespec_in_ns : TimeSpec → Run ℕ
timespec_in_ns t = mul_usize t.sec 1000000000 >>= λ ns. add_usize ns t.nsec

unfoldable pub timespec_add : TimeSpec → TimeSpec → Run TimeSpec
timespec_add a b = do
  s ← add_usize a.sec b.sec
  n ← add_usize a.nsec b.nsec
  let carried : Run TimeSpec =
      add_usize s 1 >>= λ s'. ok (record { sec = s'; nsec = n - nsec_per_sec })
  if leb nsec_per_sec n then carried else ok (record { sec = s; nsec = n })

pub record TimeVal : Type 0 where
  pub sec : ℕ
  pub usec : ℕ

unfoldable pub timeval_of_us : ℕ → TimeVal
timeval_of_us usec = record { sec = usec / usec_per_sec; usec = usec % usec_per_sec }

unfoldable pub us_of_timeval : TimeVal → Run ℕ
us_of_timeval t = mul_usize t.sec usec_per_sec >>= λ us. add_usize us t.usec

unfoldable pub timeval_in_ms : TimeVal → Run ℕ
timeval_in_ms t = mul_usize t.sec 1000 >>= λ ms. add_usize ms (t.usec / 1000)

unfoldable pub timeval_add : TimeVal → TimeVal → Run TimeVal
timeval_add a b = do
  s ← add_usize a.sec b.sec
  n ← add_usize a.usec b.usec
  let carried : Run TimeVal =
      add_usize s 1 >>= λ s'. ok (record { sec = s'; usec = n - usec_per_sec })
  if leb usec_per_sec n then carried else ok (record { sec = s; usec = n })

pub record TimeStat : Type 0 where
  pub utime_us : ℕ
  pub stime_us : ℕ
  pub user_tick : ℕ
  pub kernel_tick : ℕ
  pub start_tick : ℕ

unfoldable pub new_stat : ℕ → TimeStat
new_stat now = record {
  utime_us = 0;
  stime_us = 0;
  user_tick = 0;
  kernel_tick = 0;
  start_tick = now;
}

unfoldable pub clear_stat : TimeStat → ℕ → TimeStat
clear_stat s now = record {
  utime_us = 0;
  stime_us = 0;
  user_tick = 0;
  kernel_tick = 0;
  start_tick = now;
}

unfoldable pub kernel_to_user : TimeStat → ℕ → Run TimeStat
kernel_to_user s now = do
  delta ← sub_usize now s.kernel_tick
  t ← add_usize s.stime_us delta
  ok (record s { stime_us = t; user_tick = now })

unfoldable pub user_to_kernel : TimeStat → ℕ → Run TimeStat
user_to_kernel s now = do
  delta ← sub_usize now s.user_tick
  t ← add_usize s.utime_us delta
  ok (record s { utime_us = t; kernel_tick = now })

unfoldable pub switch_into : TimeStat → ℕ → TimeStat
switch_into s now = record s { kernel_tick = now }

unfoldable pub switch_out : TimeStat → ℕ → Run TimeStat
switch_out s now = do
  delta ← sub_usize now s.kernel_tick
  t ← add_usize s.stime_us delta
  ok (record s { stime_us = t })

unfoldable pub output : TimeStat → TimeVal × TimeVal
output s = (timeval_of_us s.utime_us, timeval_of_us s.stime_us)

unfoldable pub output_us : TimeStat → ℕ × ℕ
output_us s = (s.utime_us, s.stime_us)
