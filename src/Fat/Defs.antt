-- ===== src/Fat/Defs.antt =====
-- FATTableManager and the sector arithmetic of Fat32FS, src/fs/nfat32/fs.rs. The table is the list of its
-- entries; an index out of range panics. Clusters are `u32` and sectors `u64`.
use mankoros.Base.{
  ℕ, zero, suc, ◌-◌, ◌/◌, ◌%◌, ◌^◌, Option, none, some, List, [], ◌∷◌, leb, ◌==◌, if◌then◌else◌,
  length, get_elem?, set, Run, ok, panic, ◌>>=◌, unwrap, add_usize, sub_usize, mul_usize,
}

abbrev pub end_of_chain : ℕ
end_of_chain = 0x0fff_ffff

unfoldable pub get_fat : List ℕ → ℕ → Run ℕ
get_fat fat cid = unwrap (get_elem? fat cid)

-- `self.fat[cid] = v`
unfoldable pub put_fat : List ℕ → ℕ → ℕ → Run (List ℕ)
put_fat fat cid v = get_fat fat cid >>= λ _. ok (set fat cid v)

unfoldable pub cluster_count : List ℕ → ℕ
cluster_count fat = length fat

unfoldable pub free_cluster_count : List ℕ → ℕ
free_cluster_count [] = 0
free_cluster_count (v ∷ fat) =
    let rest = free_cluster_count fat in if v == 0 then suc rest else rest

-- the loop of `find_first_free` from the index `i` on
unfoldable pub first_free_from : ℕ → List ℕ → Run ℕ
first_free_from i [] = panic
first_free_from i (v ∷ fat) =
    let rest = first_free_from (suc i) fat in if v == 0 then ok i else rest

unfoldable pub find_first_free : List ℕ → Run ℕ
find_first_free fat = first_free_from 0 fat

unfoldable pub next : List ℕ → ℕ → Run (Option ℕ)
next fat cid = get_fat fat cid >>= λ n. ok (if leb 0x0fff_fff8 n then none else some n)

unfoldable pub find : List ℕ → ℕ → ℕ → Run (Option ℕ)
find fat beg zero = ok (some beg)
find fat beg (suc skip_n) =
    next fat beg >>= λ o. elim o [ none ↦ ok none | some n ↦ find fat n skip_n ]

-- the `for` loop of `find_range`
unfoldable pub collect : List ℕ → ℕ → ℕ → Run (List ℕ)
collect fat cur zero = ok []
collect fat cur (suc n) = next fat cur >>= λ o. elim o [
  | none ↦ ok (cur ∷ [])
  | some c ↦ collect fat c n >>= λ l. ok (cur ∷ l)
]

unfoldable pub find_range : List ℕ → ℕ → ℕ → ℕ → Run (Option (List ℕ))
find_range fat beg skip_n n = do
  start ← find fat beg skip_n
  elim start [ none ↦ ok none | some c ↦ collect fat c n >>= λ l. ok (some l) ]

unfoldable pub alloc : List ℕ → Run (ℕ × List ℕ)
alloc fat = do cid ← find_first_free fat; fat' ← put_fat fat cid end_of_chain; ok (cid, fat')

unfoldable pub free : List ℕ → ℕ → Run (List ℕ)
free fat cid = put_fat fat cid 0

unfoldable pub set_next : List ℕ → ℕ → ℕ → Run (List ℕ)
set_next fat cid next_cid = put_fat fat cid next_cid

unfoldable pub alloc_next : List ℕ → ℕ → Run (ℕ × List ℕ)
alloc_next fat cid = do
  (next_cid, fat') ← alloc fat
  fat'' ← set_next fat' cid next_cid
  ok (next_cid, fat'')

-- The loop may not end on a table with a cycle; a chain has no more clusters than the fuel needs.
unfoldable pub chain : ℕ → List ℕ → ℕ → Run (List ℕ)
chain zero fat beg = panic
chain (suc fuel) fat beg = next fat beg >>= λ o. elim o [
  | none ↦ ok (beg ∷ [])
  | some n ↦ chain fuel fat n >>= λ l. ok (beg ∷ l)
]

-- what Fat32FS knows of the disk: the first sector of the data, the sectors of a cluster, and the
-- logarithm of their number
pub record Layout : Type 0 where
  pub data_begin_sct : ℕ
  pub cluster_size_sct : ℕ
  pub log_cls_size_sct : ℕ

unfoldable pub int_log2 : ℕ → Run ℕ
int_log2 x =
    if x == 1
    then ok 0
    else if x == 2
    then ok 1
    else if x == 4
    then ok 2
    else if x == 8
    then ok 3
    else if x == 16
    then ok 4
    else if x == 32
    then ok 5
    else if x == 64
    then ok 6
    else if x == 128
    then ok 7
    else panic

unfoldable pub first_sector : Layout → ℕ → Run ℕ
first_sector fs cluster_id = do
  n ← sub_usize cluster_id 2
  offset ← mul_usize n fs.cluster_size_sct
  add_usize fs.data_begin_sct offset

unfoldable pub find_cluster : Layout → ℕ → Run ℕ
find_cluster fs sector_id = do
  relative_sid ← sub_usize sector_id fs.data_begin_sct
  c ← add_usize (relative_sid / 2 ^ fs.log_cls_size_sct) 2
  ok (c % 2 ^ 32)

unfoldable pub next_sector : Layout → List ℕ → ℕ → Run (Option ℕ)
next_sector fs fat sid = do
  relative_sid ← sub_usize sid fs.data_begin_sct
  c ← add_usize (relative_sid / 2 ^ fs.log_cls_size_sct) 2
  let crossed : Run (Option ℕ) = next fat (c % 2 ^ 32) >>= λ o. elim o [
    | none ↦ ok none
    | some n ↦ first_sector fs n >>= λ s. ok (some s)
  ]
  let inside : Run (Option ℕ) = add_usize sid 1 >>= λ s. ok (some s)
  if relative_sid % 2 ^ fs.log_cls_size_sct == 2 ^ fs.log_cls_size_sct - 1 then crossed else inside
