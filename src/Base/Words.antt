-- ===== src/Base/Words.antt =====
-- Arithmetic on `usize` and `u64`, where an overflow panics (the kernel is built in debug mode).
use Prim.Native.Nat.{ℕ, ◌+◌, ◌-◌, ◌*◌, ◌^◌, ◌<◌, ◌≤◌}
use mathlib.Core.Path.{◌≡◌}
use native.Mathlib.Omega.{arith}
use mankoros.Base.Tests.{ltb, leb, if◌then◌else◌}
use mankoros.Base.Panics.{Run, ok, panic}

abbrev pub usize_mod : ℕ
usize_mod = 2 ^ 64

unfoldable pub add_usize : ℕ → ℕ → Run ℕ
add_usize a b = if ltb (a + b) usize_mod then ok (a + b) else panic

unfoldable pub sub_usize : ℕ → ℕ → Run ℕ
sub_usize a b = if leb b a then ok (a - b) else panic

unfoldable pub mul_usize : ℕ → ℕ → Run ℕ
mul_usize a b = if ltb (a * b) usize_mod then ok (a * b) else panic

pub add_usize-ok : (a b : ℕ) → a + b < usize_mod → add_usize a b ≡ ok (a + b)
unfolding add_usize
add_usize-ok a b h = ground arith

pub sub_usize-ok : (a b : ℕ) → b ≤ a → sub_usize a b ≡ ok (a - b)
unfolding sub_usize
sub_usize-ok a b h = ground arith

pub mul_usize-ok : (a b : ℕ) → a * b < usize_mod → mul_usize a b ≡ ok (a * b)
unfolding mul_usize
mul_usize-ok a b h = ground arith
