-- ===== src/Syscall/Defs.antt =====
-- brk, mmap, munmap and mprotect of src/syscall/memory.rs, on their arguments.
use mankoros.Base.{
  ℕ, ◌+◌, ◌-◌, ◌*◌, ◌/◌, ◌%◌, ◌^◌, Bool, not, ◌&&◌, Option, none, some, ◌==◌, ltb, if◌then◌else◌,
  Run, ok, ◌>>=◌, ◌>>◌, assert, add_usize,
}
use mankoros.Errors.{SysResult, done, err, einval, enomem, ebadf}
use mankoros.Address.{page_size}
use mankoros.BTreeMap
use mankoros.RangeMap
use mankoros.UserSpace.Perm.{UserAreaPerm}
use mankoros.UserSpace.Manager
use mankoros.UserSpace.Manager.{Areas}
use mankoros.UserSpace.Fault
use mankoros.UserSpace.Fault.{Pages}

abbrev pub bit : ℕ → ℕ → Bool
bit k n = n / 2 ^ k % 2 == 1

-- `MMAPPROT::from_bits(args[2] as u32).unwrap().into()`
unfoldable pub prot_of : ℕ → Run UserAreaPerm
prot_of arg =
    let n = arg % 2 ^ 32 in
    assert (ltb n 8) >> ok (record { read = bit 0 n; write = bit 1 n; execute = bit 2 n })

pub record MmapFlags : Type 0 where
  pub map_shared : Bool
  pub map_private : Bool
  pub map_fixed : Bool
  pub map_anonymous : Bool
  pub map_noreserve : Bool

-- `MMAPFlags::from_bits(args[3] as u32).unwrap()`: no other bit may be set
unfoldable pub mmap_flags_of : ℕ → Run MmapFlags
mmap_flags_of arg =
    let n = arg % 2 ^ 32 in
    assert (n == n % 4 + n / 16 % 4 * 16 + n / 2 ^ 14 % 2 * 2 ^ 14)
    >> ok (record {
      map_shared = bit 0 n;
      map_private = bit 1 n;
      map_fixed = bit 4 n;
      map_anonymous = bit 5 n;
      map_noreserve = bit 14 n;
    })

module _ {File Shm : Type 0} where
  abbrev pub start_of : SysResult (ℕ × ℕ) × Areas File Shm → Run (SysResult ℕ × Areas File Shm)
  start_of (done (s, t), m) = ok (done s, m)
  start_of (err e, m) = ok (err e, m)

  unfoldable pub sys_brk : Areas File Shm → ℕ → Run (SysResult ℕ × Areas File Shm)
  sys_brk m brk =
      let asked : Run (SysResult ℕ × Areas File Shm) =
        Manager.get_heap_break m >>= λ b. ok (done b, m) in
      let moved : Run (SysResult ℕ × Areas File Shm) = Manager.reset_heap_break m brk >>= λ (r, m').
      ok (elim r [ done _ ↦ (done brk, m') | err e ↦ (err e, m') ]) in
      if brk == 0 then asked else moved

  -- `get_fd` is the table of open files; `fd as i32` is -1 or not negative by its low 32 bits
  unfoldable pub sys_mmap :
      (ℕ → Option File)
      → Areas File Shm
      → ℕ
      → ℕ
      → ℕ
      → ℕ
      → ℕ
      → ℕ
      → Run (SysResult ℕ × Areas File Shm)
  sys_mmap get_fd m start len prot_arg flags_arg fd offset = do
    prot ← prot_of prot_arg
    flags ← mmap_flags_of flags_arg
    let anonymous : Run (SysResult ℕ × Areas File Shm) =
        Manager.insert_mmap_anonymous m len prot >>= start_of
    let of_file : Run (SysResult ℕ × Areas File Shm) = elim (get_fd (fd % 2 ^ 32)) [
      | none ↦ ok (err ebadf, m)
      | some file ↦ Manager.insert_mmap_private m len prot file offset >>= start_of
    ]
    let mapped : Run (SysResult ℕ × Areas File Shm) =
        if flags.map_anonymous
        then (if fd % 2 ^ 32 == 2 ^ 32 - 1 && offset == 0 then anonymous else ok (err einval, m))
        else (if ltb (fd % 2 ^ 32) (2 ^ 31) then of_file else ok (err einval, m))
    if start == 0 && flags.map_fixed then ok (err einval, m) else mapped

  module _ {C : Type 0} where
    unfoldable pub sys_munmap :
        Areas File Shm → Pages C → ℕ → ℕ → Run (SysResult ℕ × Areas File Shm × Pages C)
    sys_munmap m s start len =
        let unmapped : Run (SysResult ℕ × Areas File Shm × Pages C) = do
          end ← add_usize start len
          (m', t) ← Fault.unmap_range m s start end
          ok (done 0, m', t)
        in if not (start % page_size == 0) then ok (err einval, m, s) else unmapped

  unfoldable pub sys_mprotect : Areas File Shm → ℕ → ℕ → ℕ → Run (SysResult ℕ × Areas File Shm)
  sys_mprotect m start len prot_arg = do
    prot ← prot_of prot_arg
    let changed : Run (SysResult ℕ × Areas File Shm) = do
      end ← add_usize start len
      elim (RangeMap.get m start) [
        | none ↦ ok (err enomem, m)
        | some (a, e, area) ↦
            let same = BTreeMap.put a (record { end = e; value = record area { perm = prot } }) m in
            let remapped : Run (SysResult ℕ × Areas File Shm) =
              Manager.remap_range m start end prot >>= λ m'. ok (done 0, m') in
            if a == start && e == end then ok (done 0, same) else remapped
      ]
    if not (start % page_size == 0) then ok (err einval, m) else changed
