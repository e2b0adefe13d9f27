-- ===== src/Syscall/Mmap.antt =====
-- Where mmap puts a mapping.
use mankoros.Base.{ℕ, ◌≡◌, ◌≢◌, refl, Option, ◌==◌, false, arith}
use mankoros.UserSpace.Manager.{Areas}
use mankoros.Syscall.Defs.{sys_mmap}

-- Whatever the flags, two calls of mmap that differ only in the address asked for, which is not 0,
-- give the same mapping: MAP_FIXED does not fix it.
pub sys_mmap-ignores_start :
    {File Shm : Type 0} (get_fd : ℕ → Option File) (m : Areas File Shm)
    (a b len prot flags fd offset : ℕ)
    → a ≢ 0
    → b ≢ 0
    → sys_mmap get_fd m a len prot flags fd offset ≡ sys_mmap get_fd m b len prot flags fd offset
unfolding sys_mmap
sys_mmap-ignores_start get_fd m a b len prot flags fd offset p q =
    let c : (a == 0) ≡ false = ground arith in
    let d : (b == 0) ≡ false = ground arith in rw (c, d) refl
