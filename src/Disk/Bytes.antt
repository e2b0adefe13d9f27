-- ===== src/Disk/Bytes.antt =====
-- The disk as its bytes: the cursor reads and writes them one after the other.
use mankoros.Base.{
  ℕ, ◌+◌, ◌-◌, ◌*◌, ◌/◌, ◌%◌, ◌≤◌, ◌<◌, ◌≡◌, ◌≢◌, refl, sym, ap, ◌∙◌, ltb→ge, true, false, ◌&&◌,
  Option, none, some, List, ◌==◌, ltb, leb, if◌then◌else◌, length, get_elem?, min, arith, ◌⊎◌, inl,
  inr, Bool-cases,
}
use mathlib.Core.Path.{subst}
use mankoros.Disk.Defs.{
  block_size, Disk, position, advance, overlay, write_block, write_one, answers, called,
  write_failed,
}

-- the byte at a position
abbrev pub byte : Disk → ℕ → ℕ
byte d pos = d.blocks (pos / block_size) (pos % block_size)

-- the cursor stands in a block
abbrev pub IsCursor : Disk → Type 0
IsCursor d = d.offset < block_size

abbrev pub byte_of : List ℕ → ℕ → ℕ
byte_of buf i = elim (get_elem? buf i) [ none ↦ 0 | some b ↦ b ]

-- The bytes of the buffer stand on the disk from a position on, `n` of them, and the others are as before.
abbrev pub Written : Disk → ℕ → ℕ → List ℕ → Disk → Type 0
Written d pos n buf d' =
    (d'.num_blocks ≡ d.num_blocks)
    × ((q : ℕ)
        → byte d' q ≡ (if leb pos q && ltb q (pos + n) then byte_of buf (q - pos) else byte d q))

-- the device is the same, after more calls
abbrev pub Calls : Disk → Disk → Type 0
Calls d d' = (d'.does ≡ d.does) × (d.calls ≤ d'.calls)

-- one of the calls between was not done
abbrev pub Failed : Disk → Disk → Type 0
Failed d d' = (c : ℕ) × (d.calls ≤ c) × (c < d'.calls) × (d.does c ≡ false)

-- what one write does: it ends at the end of the block or of the buffer
abbrev pub Advances : Disk → List ℕ → ℕ → Disk → Type 0
Advances d buf n d' =
    IsCursor d'
    × (n ≡ min (length buf) (block_size - d.offset))
    × (position d' ≡ position d + n)
    × Written d (position d) n buf d'
    × Calls d d'

-- how far a write gets
abbrev pub reach : Disk → List ℕ → ℕ
reach d buf = min (length buf) (block_size - d.offset)

-- the disk after a write, and after the calls before the `c`th
abbrev pub written : Disk → List ℕ → ℕ → Disk
written d buf c =
    advance
      (write_block (record d { calls = c })
        (overlay (d.blocks d.block_id) d.offset (reach d buf) buf))
      (reach d buf)

abbrev whole_of : Disk → List ℕ → Option ℕ × Disk
whole_of d buf =
    let full = write_block (called d) (overlay (d.blocks d.block_id) 0 block_size buf) in
    (some block_size, record full { block_id = d.block_id + 1 })

-- a whole block is written as a part of one is
whole-written :
    (d : Disk) (buf : List ℕ)
    → ((d.offset == 0) && leb block_size (length buf)) ≡ true
    → whole_of d buf ≡ (some (reach d buf), written d buf (d.calls + 1))
whole-written d buf h = ground (arith, h)

advance-position : (d : Disk) (n : ℕ) → position (advance d n) ≡ position d + n
unfolding position
advance-position d n = ground arith

advance-IsCursor :
    (d : Disk) (n : ℕ) → d.offset + n < block_size + block_size → IsCursor (advance d n)
advance-IsCursor d n h = ground arith

advance-blocks : (d : Disk) (n : ℕ) → (advance d n).blocks ≡ d.blocks
advance-blocks d n = elim (Bool-cases (leb block_size (d.offset + n))) [
  | inl over ↦ simp over
  | inr within ↦ simp within
]

advance-num_blocks : (d : Disk) (n : ℕ) → (advance d n).num_blocks ≡ d.num_blocks
advance-num_blocks d n = elim (Bool-cases (leb block_size (d.offset + n))) [
  | inl over ↦ simp over
  | inr within ↦ simp within
]

overlay-byte :
    (d : Disk) (n : ℕ) (buf : List ℕ) (q : ℕ)
    → IsCursor d
    → n ≤ block_size - d.offset
    → byte (write_block d (overlay (d.blocks d.block_id) d.offset n buf)) q ≡ (
        if leb (position d) q && ltb q (position d + n)
        then byte_of buf (q - position d)
        else byte d q)
unfolding position
overlay-byte d n buf q h r = elim (Bool-cases (q / block_size == d.block_id)) [
  | inl same ↦
      let e : q / block_size ≡ d.block_id = ground (arith, same) in
      let at : q ≡ d.block_id * block_size + q % block_size = omega (arith, e) in
      let i : q - (d.block_id * block_size + d.offset) ≡ q % block_size - d.offset = omega arith in
      rw i (ground (arith, same, at))
  | inr apart ↦ let e : q / block_size ≢ d.block_id = ground (arith, apart) in ground (arith, apart)
]

advance-Calls : (d e : Disk) (n : ℕ) → Calls d e → Calls d (advance e n)
advance-Calls d e n h = elim (Bool-cases (leb block_size (e.offset + n))) [
  | inl over ↦ simp over h
  | inr within ↦ simp within h
]

written-Advances :
    (d : Disk) (buf : List ℕ) (c : ℕ)
    → IsCursor d
    → d.calls ≤ c
    → Advances d buf (reach d buf) (written d buf c)
unfolding position
written-Advances d buf c h more =
    let n = reach d buf in
    let w = write_block (record d { calls = c }) (overlay (d.blocks d.block_id) d.offset n buf) in
    (
      advance-IsCursor w n (omega arith),
      refl,
      advance-position w n,
      (
        advance-num_blocks w n,
        λ q.
            ap (λ b. b (q / block_size) (q % block_size)) (advance-blocks w n)
            ∙ overlay-byte d n buf q h (omega arith),
      ),
      advance-Calls d w n (refl, more),
    )

-- a call that is not done is past the last block, or the device did not do it
unanswered :
    (d d' : Disk)
    → answers d ≡ false
    → d.calls < d'.calls
    → (d.num_blocks ≤ d.block_id) ⊎ Failed d d'
unanswered d d' h more = elim (Bool-cases (ltb d.block_id d.num_blocks)) [
  | inr out ↦ inl (ltb→ge d.block_id d.num_blocks out)
  | inl inside ↦ inr (d.calls, omega arith, more, sym (rw inside refl) ∙ h)
]

answered : (d : Disk) → answers d ≡ true → d.block_id < d.num_blocks
answered d h = ground (arith, h)

write_failed-calls : (d : Disk) → (write_failed d).calls ≡ d.calls + 1
write_failed-calls d = elim (Bool-cases (ltb d.block_id d.num_blocks)) [
  | inl inside ↦ simp inside
  | inr out ↦ simp out
]

-- what a write gives: an error, with a reason, or how far it got
abbrev pub Wrote : Disk → List ℕ → Option ℕ × Disk → Type 0
Wrote d buf (none, d') = (d.num_blocks ≤ d.block_id) ⊎ Failed d d'
Wrote d buf (some n, d') = (d.block_id < d.num_blocks) × Advances d buf n d'

write_one-whole :
    (d : Disk) (buf : List ℕ)
    → ((d.offset == 0) && leb block_size (length buf)) ≡ true
    → answers d ≡ true
    → write_one d buf ≡ (some (reach d buf), written d buf (d.calls + 1))
unfolding write_one
write_one-whole d buf h k =
    let e : write_one d buf ≡ whole_of d buf = rw (h, k) refl in e ∙ whole-written d buf h

-- A write within one block writes up to the end of the block or of the buffer at the cursor, moves it behind
-- what it wrote, and leaves the other bytes; or it fails, past the last block or with a call that the device
-- does not do.
pub write_one_correct : (d : Disk) (buf : List ℕ) → IsCursor d → Wrote d buf (write_one d buf)
unfolding write_one
write_one_correct d buf h = elim (Bool-cases ((d.offset == 0) && leb block_size (length buf))) [
  | inl whole ↦ elim (Bool-cases (answers d)) [
    | inl yes_done ↦
        subst (Wrote d buf) (sym (write_one-whole d buf whole yes_done))
          (answered d yes_done, written-Advances d buf (d.calls + 1) h (omega arith))
    | inr not_done ↦
        rw (whole, not_done)
          (unanswered d (write_failed d) not_done (omega (arith, write_failed-calls d)))
  ]
  | inr part ↦ elim (Bool-cases (answers d)) [
    | inr not_done ↦ rw (part, not_done) (unanswered d (called d) not_done (omega arith))
    | inl yes_done ↦ elim (Bool-cases (answers (called d))) [
      | inl again ↦
          rw (part, yes_done, again)
            (answered d yes_done, written-Advances d buf (d.calls + 1 + 1) h (omega arith))
      | inr not_done ↦
          rw (part, yes_done, not_done)
            (elim (unanswered (called d) (write_failed (called d)) not_done
              (omega (arith, write_failed-calls (called d)))) [
                | inl past ↦ inl past
                | inr (c, from, before, failed) ↦ inr (c, omega (arith, from), before, failed)
              ])
    ]
  ]
]
