-- ===== src/Disk/Defs.antt =====
-- src/fs/disk.rs and src/fs/partition.rs: the cursor of a disk over its blocks, and of a partition over the
-- disk. The device is the contents of its blocks, of 512 bytes, their number, and how it answers: a call for a
-- block past the last one is an error, and any other may be one.
use mankoros.Base.{
  ℕ, zero, suc, ◌+◌, ◌-◌, ◌*◌, ◌/◌, ◌%◌, Bool, ◌&&◌, Option, none, some, List, [], ◌∷◌, ◌==◌, ltb,
  leb, if◌then◌else◌, update, length, get_elem?, min, Run, ok, panic, ◌>>=◌, add_usize, sub_usize,
}
use mankoros.Errors.{eio, SysResult, done, err}

abbrev pub block_size : ℕ
block_size = 512

pub record Disk : Type 0 where
  pub block_id : ℕ
  pub offset : ℕ
  pub num_blocks : ℕ
  pub blocks : ℕ → ℕ → ℕ
  -- whether the device does what a call asks for, by the number of the call; the number of the calls so far; and
  -- what a call to write that it does not do leaves in the block
  pub does : ℕ → Bool
  pub calls : ℕ
  pub torn : ℕ → ℕ → ℕ

unfoldable pub size : Disk → ℕ
size d = d.num_blocks * block_size

unfoldable pub position : Disk → ℕ
position d = d.block_id * block_size + d.offset

unfoldable pub set_position : Disk → ℕ → Disk
set_position d pos = record d { block_id = pos / block_size; offset = pos % block_size }

-- the cursor after `count` bytes of its block
abbrev pub advance : Disk → ℕ → Disk
advance d count =
    let offset = d.offset + count in
    if leb block_size offset
    then record d { block_id = d.block_id + 1; offset = offset - block_size }
    else record d { offset = offset }

-- the bytes from `start` on, `n` of them
abbrev pub slice : (ℕ → ℕ) → ℕ → ℕ → List ℕ
slice bytes start zero = []
slice bytes start (suc n) = bytes start ∷ slice bytes (suc start) n

-- the next call of the device for the block of the cursor: whether it is done, and the disk after it
abbrev pub answers : Disk → Bool
answers d = ltb d.block_id d.num_blocks && d.does d.calls

abbrev pub called : Disk → Disk
called d = record d { calls = d.calls + 1 }

-- the bytes read, or an error of the device, and the disk after it; the bytes are the first of the `len` bytes
-- of the buffer
unfoldable pub read_one : Disk → ℕ → Option (List ℕ) × Disk
read_one d len =
    let whole : Option (List ℕ) × Disk = (
      some (slice (d.blocks d.block_id) 0 block_size),
      record d { block_id = d.block_id + 1; calls = d.calls + 1 },
    ) in
    let count = min len (block_size - d.offset) in
    let part : Option (List ℕ) × Disk =
      (some (slice (d.blocks d.block_id) d.offset count), advance (called d) count) in
    if answers d
    then (if (d.offset == 0) && leb block_size len then whole else part)
    else (none, called d)

-- the block with the first `count` bytes of `buf` from `start` on
abbrev pub overlay : (ℕ → ℕ) → ℕ → ℕ → List ℕ → ℕ → ℕ
overlay bytes start count buf i =
    if leb start i && ltb i (start + count)
    then (elim (get_elem? buf (i - start)) [ none ↦ 0 | some b ↦ b ])
    else bytes i

abbrev pub write_block : Disk → (ℕ → ℕ) → Disk
write_block d bytes = record d { blocks = update d.blocks d.block_id bytes }

-- a call to write that is not done: past the last block there is no block to change
abbrev pub write_failed : Disk → Disk
write_failed d =
    if ltb d.block_id d.num_blocks then called (write_block d (d.torn d.calls)) else called d

-- a part of a block is read and written again
unfoldable pub write_one : Disk → List ℕ → Option ℕ × Disk
write_one d buf =
    let full = write_block (called d) (overlay (d.blocks d.block_id) 0 block_size buf) in
    let count = min (length buf) (block_size - d.offset) in
    let part = write_block (called (called d)) (overlay (d.blocks d.block_id) d.offset count buf) in
    let whole_block : Option ℕ × Disk =
      if answers d
      then (some block_size, record full { block_id = d.block_id + 1 })
      else (none, write_failed d) in
    let part_of_block : Option ℕ × Disk =
      if answers d
      then (if answers (called d)
          then (some count, advance part count)
          else (none, write_failed (called d)))
      else (none, called d) in
    if (d.offset == 0) && leb block_size (length buf) then whole_block else part_of_block

-- `buf[n..]`
abbrev pub rest_of : ℕ → List ℕ → List ℕ
rest_of zero buf = buf
rest_of (suc n) [] = []
rest_of (suc n) (b ∷ buf) = rest_of n buf

-- the arms of the loop of `sync_write_at`, where `again` is the rest of it
abbrev pub after_write :
    Option ℕ × Disk → ℕ → (ℕ → Disk → Run (SysResult ℕ × Disk)) → Run (SysResult ℕ × Disk)
after_write (none, d') write_len again = ok (err eio, d')
after_write (some n, d') write_len again =
    let rest = again n d' in if n == 0 then ok (done write_len, d') else rest

-- the loop of `sync_write_at`, on fuel for one byte each
unfoldable pub write_loop : ℕ → Disk → List ℕ → ℕ → Run (SysResult ℕ × Disk)
write_loop zero d buf write_len = panic
write_loop (suc fuel) d [] write_len = ok (done write_len, d)
write_loop (suc fuel) d (b ∷ buf) write_len =
    after_write (write_one d (b ∷ buf)) write_len
      (λ n d'. write_loop fuel d' (rest_of n (b ∷ buf)) (write_len + n))

unfoldable pub sync_write_at : Disk → ℕ → List ℕ → Run (SysResult ℕ × Disk)
sync_write_at d offset buf = write_loop (length buf + 1) (set_position d offset) buf 0

-- the result, and whether anything is read into the buffer of `len` bytes: nothing is
unfoldable pub sync_read_at : Disk → ℕ → ℕ → SysResult ℕ
sync_read_at d offset len = if len == 0 then done 0 else done 1

pub record Partition : Type 0 where
  pub part_offset : ℕ
  pub part_size : ℕ
  pub pos : ℕ

-- the cursor of the partition, moved with the disk's
abbrev pub follow : Partition → Disk → Run Partition
follow p d = sub_usize (position d) p.part_offset >>= λ pos. ok (record p { pos = pos })

unfoldable pub part_read_one : Partition → Disk → ℕ → Run (Option (List ℕ) × Partition × Disk)
part_read_one p d len = add_usize p.pos p.part_offset >>= λ at.
    let (bytes, d') = read_one (set_position d at) len in follow p d' >>= λ p'. ok (bytes, p', d')

unfoldable pub part_write_one : Partition → Disk → List ℕ → Run (Option ℕ × Partition × Disk)
part_write_one p d buf = add_usize p.pos p.part_offset >>= λ at.
    let (n, d') = write_one (set_position d at) buf in follow p d' >>= λ p'. ok (n, p', d')
