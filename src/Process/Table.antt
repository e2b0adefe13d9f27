-- ===== src/Process/Table.antt =====
-- The table of open files: what is opened, replaced and closed.
use mankoros.Base.{
  ℕ, ◌+◌, ◌≤◌, ◌<◌, ◌≡◌, ◌≢◌, refl, sym, none, some, List, [], ◌∷◌, ◌==◌, leb, if◌then◌else◌,
  length, arith, ◌⊎◌, inl, inr, Bool-cases, Option-cases, Returns, returns, Returns-map,
  Returns-bind, usize_mod,
}
use mankoros.BTreeMap
use mankoros.BTreeMap.{Map}
use mankoros.Errors.{emfile, SysResult, done, err}
use mankoros.Pid.{UsizePool, IsPooled, occurs, get-IsPooled}
use mankoros.Process.Fds.{
  FileDescriptor, new_descriptor, FdTable, insert, check_whether_alloc_will_exceeded_limit, take,
  alloc, get,
}
use mankoros.Process.Pool.{IsPooled-cong}

module _ {A : Type 0} where
  get-insert_here :
      (k : ℕ) (v : A) (m : Map A)
      → BTreeMap.get k m ≡ none
      → BTreeMap.get k (BTreeMap.insert k v m) ≡ some v
  unfolding BTreeMap.get BTreeMap.insert
  get-insert_here k v [] h = ground arith
  get-insert_here k v ((j, a) ∷ m) h = let again = get-insert_here k v m in ground (arith, h, again)

  get-insert_there :
      (k : ℕ) (v : A) (m : Map A) (n : ℕ)
      → n ≢ k
      → BTreeMap.get n (BTreeMap.insert k v m) ≡ BTreeMap.get n m
  unfolding BTreeMap.get BTreeMap.insert
  get-insert_there k v [] n h = ground arith
  get-insert_there k v ((j, a) ∷ m) n h =
      let again = get-insert_there k v m n h in ground (arith, again)

  get-put_here :
      (k : ℕ) (v : A) (m : Map A) (a : A)
      → BTreeMap.get k m ≡ some a
      → BTreeMap.get k (BTreeMap.put k v m) ≡ some v
  unfolding BTreeMap.get BTreeMap.put
  get-put_here k v [] a h = absurd (cc)
  get-put_here k v ((j, b) ∷ m) a h = let again = get-put_here k v m a in ground (arith, h, again)

  get-put_there :
      (k : ℕ) (v : A) (m : Map A) (n : ℕ)
      → n ≢ k
      → BTreeMap.get n (BTreeMap.put k v m) ≡ BTreeMap.get n m
  unfolding BTreeMap.get BTreeMap.put
  get-put_there k v [] n h = refl
  get-put_there k v ((j, b) ∷ m) n h = let again = get-put_there k v m n h in ground (arith, again)

  -- An insertion gives the key its value, and leaves the other keys.
  pub get-insert :
      (k : ℕ) (v : A) (m : Map A)
      → (BTreeMap.get k (insert k v m) ≡ some v)
        × ((n : ℕ) → n ≢ k → BTreeMap.get n (insert k v m) ≡ BTreeMap.get n m)
  unfolding insert
  get-insert k v m = elim (Option-cases (BTreeMap.get k m)) [
    | inl gone ↦
        let e : insert k v m ≡ BTreeMap.insert k v m = rw gone refl in
        rw e (get-insert_here k v m gone, get-insert_there k v m)
    | inr (a, there) ↦
        let e : insert k v m ≡ BTreeMap.put k v m = rw there refl in
        rw e (get-put_here k v m a there, get-put_there k v m)
  ]

  -- the keys that come from the pool
  abbrev pub live_of : Map A → List ℕ
  live_of [] = []
  live_of ((k, a) ∷ m) = if leb 3 k then k ∷ live_of m else live_of m

  pub occurs-none : (k : ℕ) (m : Map A) → 3 ≤ k → occurs k (live_of m) ≡ 0 → BTreeMap.get k m ≡ none
  unfolding BTreeMap.get
  occurs-none k [] h o = refl
  occurs-none k ((j, a) ∷ m) h o = let again = occurs-none k m h in ground (arith, o, again)

  pub insert-new :
      (k : ℕ) (v : A) (m : Map A) → BTreeMap.get k m ≡ none → insert k v m ≡ BTreeMap.insert k v m
  unfolding insert
  insert-new k v m gone = rw gone refl

  occurs-map_insert :
      (k : ℕ) (v : A) (m : Map A) (n : ℕ)
      → 3 ≤ k
      → occurs n (live_of (BTreeMap.insert k v m)) ≡ occurs n (k ∷ live_of m)
  unfolding BTreeMap.insert
  occurs-map_insert k v [] n h = ground arith
  occurs-map_insert k v ((j, a) ∷ m) n h =
      let again = occurs-map_insert k v m n h in ground (arith, again)

  pub occurs-insert :
      (k : ℕ) (v : A) (m : Map A) (n : ℕ)
      → 3 ≤ k
      → BTreeMap.get k m ≡ none
      → occurs n (live_of (insert k v m)) ≡ occurs n (k ∷ live_of m)
  occurs-insert k v m n h gone = rw (insert-new k v m gone) (occurs-map_insert k v m n h)

  pub length-map_insert :
      (k : ℕ) (v : A) (m : Map A) → length (BTreeMap.insert k v m) ≡ length m + 1
  unfolding BTreeMap.insert
  length-map_insert k v [] = refl
  length-map_insert k v ((j, a) ∷ m) = let again = length-map_insert k v m in ground (arith, again)

-- what an opened file has: a number that was not in use, and the rest of the table
abbrev pub IsOpened : FdTable → FileDescriptor → ℕ → FdTable → Type 0
IsOpened t d fd t' =
    (get t fd ≡ none)
    × (get t' fd ≡ some d)
    × ((n : ℕ) → get t' n ≡ (if n == fd then some d else get t n))
    × IsPooled 3 (live_of t'.table) t'.pool

abbrev pub Opened : FdTable → FileDescriptor → SysResult ℕ × FdTable → Type 0
Opened t d (r, t') =
    ((t.limit ≤ length t.table) × (r ≡ err emfile) × (t' ≡ t))
    ⊎ ((length t.table < t.limit) × ((fd : ℕ) × (r ≡ done fd) × IsOpened t d fd t'))

pub pooled-above :
    (start id : ℕ) (live : List ℕ) (p : UsizePool) → IsPooled start (id ∷ live) p → start ≤ id
pooled-above start id live p (h, q) = ground (arith, q id)

-- a descriptor at a number the pool gave
pub inserted-IsOpened :
    (t : FdTable) (d : FileDescriptor) (fd : ℕ) (pool : UsizePool)
    → occurs fd (live_of t.table) ≡ 0
    → IsPooled 3 (fd ∷ live_of t.table) pool
    → IsOpened t d fd (record t { pool = pool; table = insert fd d t.table })
unfolding get
inserted-IsOpened t d fd pool fresh p =
    let above = pooled-above 3 fd (live_of t.table) pool p in
    let gone = occurs-none fd t.table above fresh in
    let (here, there) : (BTreeMap.get fd (insert fd d t.table) ≡ some d)
        × ((n : ℕ) → n ≢ fd → BTreeMap.get n (insert fd d t.table) ≡ BTreeMap.get n t.table) =
      get-insert fd d t.table in
    (
      gone,
      here,
      (λ n. elim (Bool-cases (n == fd)) [
        | inl same ↦ ground (arith, same, here)
        | inr other ↦ rw other (there n (ground (arith, other)))
      ]),
      IsPooled-cong 3 (fd ∷ live_of t.table) (live_of (insert fd d t.table)) pool
          (λ n. sym (occurs-insert fd d t.table n above gone)) p,
    )

take-IsOpened :
    (t : FdTable) (d : FileDescriptor)
    → IsPooled 3 (live_of t.table) t.pool
    → t.pool.next + 1 < usize_mod
    → Returns (λ (r, t'). (fd : ℕ) × (r ≡ done fd) × IsOpened t d fd t') (take t d)
take-IsOpened t d h b =
    Returns-bind (get-IsPooled 3 (live_of t.table) t.pool h b)
      (λ (fd, pool) (fresh, p). returns (fd, refl, inserted-IsOpened t d fd pool fresh p))

-- Opening a file, where fewer than 2^64 - 1 numbers were handed out and the pool accounts for the
-- numbers from 3 in the table: with the table at its limit the result is EMFILE and nothing
-- changes; below it the file gets a number that was not in use, every other number keeps its
-- descriptor, and the pool accounts for the table again.
pub alloc_correct :
    (t : FdTable) (file : ℕ)
    → IsPooled 3 (live_of t.table) t.pool
    → t.pool.next + 1 < usize_mod
    → Returns (Opened t (new_descriptor file)) (alloc t file)
unfolding alloc check_whether_alloc_will_exceeded_limit
alloc_correct t file h b = elim (Bool-cases (leb t.limit (length t.table))) [
  | inl full ↦ rw full (returns (inl (ground (arith, full), refl, refl)))
  | inr room ↦ rw room (
      Returns-map (take-IsOpened t (new_descriptor file) h b)
        (λ r o. inr (ground (arith, room), o)))
]
