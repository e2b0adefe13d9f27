-- ===== src/Process/Fds.antt =====
-- src/process/lproc.rs: FileDescriptor, FdTable and ShmTable. The map of a table has each key once, and
-- an insertion at a key replaces what it had.
use mankoros.Base.{
  ℕ, zero, suc, ◌+◌, ◌-◌, Bool, true, false, not, Option, none, some, List, [], ◌∷◌, leb,
  if◌then◌else◌, length, Run, ok, panic, ◌>>=◌, ◌>>◌, assert,
}
use mankoros.BTreeMap
use mankoros.BTreeMap.{Map}
use mankoros.Errors.{emfile, SysResult, done, err}
use mankoros.Pid
use mankoros.Pid.{UsizePool}

-- the file is a shared reference, by its number
pub record FileDescriptor : Type 0 where
  pub file : ℕ
  pub get_dents_progress : ℕ
  pub curr : ℕ

unfoldable pub new_descriptor : ℕ → FileDescriptor
new_descriptor file = record { file = file; get_dents_progress = 0; curr = 0 }

module _ {A : Type 0} where
  abbrev pub is_some : Option A → Bool
  is_some none = false
  is_some (some a) = true

  -- `map.contains_key(&k)`
  abbrev pub contains_key : ℕ → Map A → Bool
  contains_key k m = is_some (BTreeMap.get k m)

  -- `map.insert(k, v)`
  unfoldable pub insert : ℕ → A → Map A → Map A
  insert k v m = if contains_key k m then BTreeMap.put k v m else BTreeMap.insert k v m

  -- the closure of `retain` gives each key back, in order
  abbrev pub release_keys : Map A → UsizePool → Run UsizePool
  release_keys [] pool = ok pool
  release_keys ((k, a) ∷ m) pool = Pid.release pool k >>= release_keys m

pub record FdTable : Type 0 where
  pub pool : UsizePool
  pub table : Map FileDescriptor
  pub limit : ℕ

unfoldable pub new_empty : FdTable
new_empty = record { pool = Pid.new 3; table = []; limit = 512 }

unfoldable pub add_std : FdTable → ℕ → ℕ → ℕ → Run FdTable
add_std t stdin stdout stderr = do
  assert (not (contains_key 0 t.table))
  assert (not (contains_key 1 t.table))
  assert (not (contains_key 2 t.table))
  let m0 = insert 0 (new_descriptor stdin) t.table
  let m1 = insert 1 (new_descriptor stdout) m0
  ok (record t { table = insert 2 (new_descriptor stderr) m1 })

unfoldable pub check_whether_alloc_will_exceeded_limit : FdTable → SysResult (Unit {0})
check_whether_alloc_will_exceeded_limit t =
    if leb t.limit (length t.table) then err emfile else done tt

-- `?` on the check of the limit
abbrev pub within :
    SysResult (Unit {0}) → FdTable → Run (SysResult ℕ × FdTable) → Run (SysResult ℕ × FdTable)
within (err e) t k = ok (err e, t)
within (done u) t k = k

-- an identifier of the pool, and the table with the descriptor there
abbrev pub take : FdTable → FileDescriptor → Run (SysResult ℕ × FdTable)
take t d = Pid.get t.pool >>= λ (fd, pool).
    ok (done fd, record t { pool = pool; table = insert fd d t.table })

unfoldable pub alloc : FdTable → ℕ → Run (SysResult ℕ × FdTable)
alloc t file = within (check_whether_alloc_will_exceeded_limit t) t (take t (new_descriptor file))

pub data NewFdRequirement : Type 0 where
  exactly : ℕ → NewFdRequirement
  greater_than : ℕ → NewFdRequirement
  any : NewFdRequirement

-- the loop of `dup`: identifiers are taken until one is large enough; the others are returned, in order
unfoldable pub skip_below : ℕ → UsizePool → ℕ → Run (ℕ × List ℕ × UsizePool)
skip_below zero pool lower_bound = panic
skip_below (suc fuel) pool lower_bound = Pid.get pool >>= λ (fd, pool').
    let again = skip_below fuel pool' lower_bound >>= λ (n, skipped, p). ok (n, fd ∷ skipped, p) in
    if leb lower_bound fd then ok (fd, [], pool') else again

abbrev pub release_all_of : List ℕ → UsizePool → Run UsizePool
release_all_of [] pool = ok pool
release_all_of (fd ∷ fds) pool = Pid.release pool fd >>= release_all_of fds

-- the recycled identifiers, and then the new ones up to the bound
abbrev pub skip_fuel : UsizePool → ℕ → ℕ
skip_fuel pool lower_bound = length pool.recycled + (lower_bound - pool.next) + 1

unfoldable pub new_fd_no : UsizePool → NewFdRequirement → Run (ℕ × UsizePool)
new_fd_no pool (exactly new_fd) = ok (new_fd, pool)
new_fd_no pool (greater_than lower_bound) =
    skip_below (skip_fuel pool lower_bound) pool lower_bound >>= λ (fd, skipped, p).
    release_all_of skipped p >>= λ p'. ok (fd, p')
new_fd_no pool any = Pid.get pool

-- whether `dup` replaces a descriptor, so that the limit is not checked
abbrev pub replaces : FdTable → NewFdRequirement → Bool
replaces t (exactly new_fd) = contains_key new_fd t.table
replaces t (greater_than lower_bound) = false
replaces t any = false

unfoldable pub dup : FdTable → NewFdRequirement → FileDescriptor → Run (SysResult ℕ × FdTable)
dup t req old_fd =
    let inserted = new_fd_no t.pool req >>= λ (fd, pool).
    ok (done fd, record t { pool = pool; table = insert fd old_fd t.table }) in
    let checked = within (check_whether_alloc_will_exceeded_limit t) t inserted in
    if replaces t req then inserted else checked

unfoldable pub remove : FdTable → ℕ → Run (Option FileDescriptor × FdTable)
remove t fd = elim (BTreeMap.remove fd t.table) [
  | none ↦ ok (none, t)
  | some (d, m) ↦ Pid.release t.pool fd >>= λ pool. ok (some d, record t { pool = pool; table = m })
]

unfoldable pub get : FdTable → ℕ → Option FileDescriptor
get t fd = BTreeMap.get fd t.table

unfoldable pub release_all : FdTable → Run FdTable
release_all t = release_keys t.table t.pool >>= λ pool. ok (record t { pool = pool; table = [] })

-- the shared memory of a process, by the number of the segment
pub record ShmTable : Type 0 where
  pub shm_pool : UsizePool
  pub shms : Map ℕ

unfoldable pub new_empty_shm : ShmTable
new_empty_shm = record { shm_pool = Pid.new 0; shms = [] }

unfoldable pub alloc_shm : ShmTable → ℕ → Run (ℕ × ShmTable)
alloc_shm t shm = Pid.get t.shm_pool >>= λ (id, pool).
    ok (id, record { shm_pool = pool; shms = insert id shm t.shms })

unfoldable pub get_shm : ShmTable → ℕ → Option ℕ
get_shm t id = BTreeMap.get id t.shms

unfoldable pub remove_shm : ShmTable → ℕ → Run (Option ℕ × ShmTable)
remove_shm t id = elim (BTreeMap.remove id t.shms) [
  | none ↦ ok (none, t)
  | some (shm, m) ↦
      Pid.release t.shm_pool id >>= λ pool. ok (some shm, record { shm_pool = pool; shms = m })
]
