-- ===== src/PageTable/CopyPage.antt =====
-- The copy of one page for a fork, and of a table as one page after the other.
use mankoros.Base.{
  ℕ, zero, suc, ◌+◌, ◌^◌, ◌/◌, ◌≤◌, ◌<◌, ◌≡◌, ◌≢◌, refl, sym, ap, ◌∙◌, Bool, true, false, ◌&&◌,
  ◌==◌, leb, ltb, if◌then◌else◌, Run, ok, inl, inr, Bool-cases, arith,
}
use mankoros.Address.{page_size}
use mankoros.Frame
use mankoros.Frame.{Frames}
use mankoros.Frame.Calls.{HasCounter, counts, increase-counts}
use mankoros.Pte
use mankoros.Pte.Bits.{pack, pack-flags, clear_writable-pack, set_shared-pack}
use mankoros.PageTable.Defs.{Memory, Slot, read, write}
use mankoros.PageTable.Copy.{page_of, in_share_seg, marked, copy_page}

-- one more reference to the frame
abbrev pub count_frame : ℕ → Frames → Run Frames
count_frame paddr fs = Frame.increase fs (paddr / page_size)

-- a valid entry of a user page
abbrev pub maps_user : ℕ → Bool
maps_user e = Pte.is_valid e && Pte.is_user e

-- an entry with the same frame, shared and not writable
unfoldable pub on_write : ℕ → ℕ
unfolding pack
on_write e = pack (e / 1024) (record (Pte.flags e) { shared = true; w = false })

-- the 8 GiB of shared memory
unfoldable pub is_shared_memory : ℕ → Bool
is_shared_memory vaddr = leb 0x4_0000_0000 vaddr && ltb vaddr 0x6_0000_0000

-- a user page outside of the segment of shared memory is copied on write
unfoldable pub cow_entry : ℕ → ℕ → ℕ
unfolding is_shared_memory on_write
cow_entry vaddr e = if is_shared_memory vaddr then e else on_write e

-- what the fork leaves of an entry
abbrev pub forked : ℕ → ℕ → ℕ
forked vaddr e = if maps_user e then cow_entry vaddr e else e

marked-on_write : (e : ℕ) → marked false e ≡ on_write e
unfolding marked on_write
marked-on_write e =
    ap (λ n. Pte.set_shared (Pte.clear_writable n)) (sym (pack-flags e))
    ∙ ap Pte.set_shared (clear_writable-pack (e / 1024) (Pte.flags e))
    ∙ set_shared-pack (e / 1024) (record (Pte.flags e) { w = false })

marked-kept : (e : ℕ) → marked true e ≡ e
unfolding marked
marked-kept e = refl

segment : (vaddr : ℕ) → in_share_seg vaddr ≡ is_shared_memory vaddr
unfolding is_shared_memory
segment vaddr = refl

marked-cow : (vaddr e : ℕ) → marked (in_share_seg vaddr) e ≡ cow_entry vaddr e
unfolding cow_entry
marked-cow vaddr e = elim (Bool-cases (is_shared_memory vaddr)) [
  | inl inside ↦ rw (segment vaddr, inside) (marked-kept e)
  | inr outside ↦ rw (segment vaddr, outside) (marked-on_write e)
]

-- the tables `op` and `np` after the entries from `idx` on were copied, `k` of them
abbrev pub copied : Memory → ℕ → ℕ → ℕ → ℕ → ℕ → ℕ → ℕ → ℕ → ℕ
copied m idx1 idx2 op np idx k a j =
    let e = m.entries op j in
    let e' = forked (page_of idx1 idx2 j) e in
    if leb idx j && ltb j (idx + k)
    then (if a == op then e' else if (a == np) && Pte.is_valid e then e' else m.entries a j)
    else m.entries a j

-- how many of these entries are user pages on the frame `q`
abbrev pub users : (ℕ → ℕ) → ℕ → ℕ → ℕ → ℕ
users es idx zero q = 0
users es idx (suc k) q =
    (if maps_user (es idx) && (Pte.paddr (es idx) / page_size == q) then 1 else 0)
    + users es (suc idx) k q

-- what is mapped from index `idx` on are pages, user pages on frames that have a counter, and the
-- counters have room for `k` more
pub record IsForkable (m : Memory) (op idx k : ℕ) : Type 0 where
  pub leaves :
      (i : ℕ) → idx ≤ i → Pte.is_valid (m.entries op i) ≡ true → Pte.is_leaf (m.entries op i) ≡ true
  pub counted :
      (i : ℕ)
      → idx ≤ i
      → maps_user (m.entries op i) ≡ true
      → HasCounter m.frames (Pte.paddr (m.entries op i) / page_size)
  pub room : (q : ℕ) → m.frames.ref_cnt q + k < 2 ^ 32

pub users-cong :
    (es fs : ℕ → ℕ) (idx k q : ℕ)
    → ((i : ℕ) → idx ≤ i → es i ≡ fs i)
    → users es idx k q ≡ users fs idx k q
users-cong es fs idx zero q h = refl
users-cong es fs idx (suc k) q h =
    let again = users-cong es fs (suc idx) k q (λ i l. h i (omega arith)) in
    rw (h idx (omega arith), again) refl

-- the memory after one entry is copied
abbrev pub stepped : Memory → ℕ → Slot → Slot → Memory
stepped m vaddr o n =
    let e = read m o in
    let p = Pte.paddr e / page_size in
    let fs = counts m.frames p (m.frames.ref_cnt p + 1) in
    let e' = cow_entry vaddr e in
    if Pte.is_valid e
    then (if Pte.is_user e then write (write (record m { frames = fs }) o e') n e' else write m n e)
    else m

pub copy_page-stepped :
    (m : Memory) (vaddr idx k : ℕ) (op np : ℕ)
    → IsForkable m op idx (suc k)
    → copy_page count_frame vaddr
        (record { table = op; index = idx })
        (record { table = np; index = idx })
        m
      ≡ ok (
          stepped m vaddr (record { table = op; index = idx }) (record { table = np; index = idx }))
unfolding copy_page
copy_page-stepped m vaddr idx k op np h = elim (Bool-cases (Pte.is_valid (m.entries op idx))) [
  | inr none_ ↦ simp none_
  | inl valid ↦
      let leaf = h.leaves idx (omega arith) valid in
      elim (Bool-cases (Pte.is_user (m.entries op idx))) [
        | inr kernel ↦ simp (valid, leaf, kernel)
        | inl user ↦
            let p = Pte.paddr (m.entries op idx) / page_size in
            let c =
              increase-counts m.frames p (h.counted idx (omega arith) (rw (valid, user) refl))
                (omega (arith, h.room p)) in
            simp (valid, leaf, user, c, marked-cow vaddr (m.entries op idx))
      ]
]

-- a write of one entry
pub write-entries :
    (m : Memory) (t idx e a j : ℕ)
    → (write m (record { table = t; index = idx }) e).entries a j
      ≡ (if (a == t) && (j == idx) then e else m.entries a j)
write-entries m t idx e a j = ground arith

pub stepped-entries :
    (m : Memory) (idx1 idx2 op np idx a j : ℕ)
    → op ≢ np
    → (stepped m
          (page_of idx1 idx2 idx)
          (record { table = op; index = idx })
          (record { table = np; index = idx })).entries
        a j
      ≡ copied m idx1 idx2 op np idx 1 a j
stepped-entries m idx1 idx2 op np idx a j d = elim (Bool-cases (j == idx)) [
  | inl same ↦
      let here : j ≡ idx = ground (arith, same) in
      rw here (elim (Bool-cases (Pte.is_valid (m.entries op idx))) [
        | inl valid ↦ elim (Bool-cases (Pte.is_user (m.entries op idx))) [
          | inl user ↦ ground (arith, valid, user)
          | inr kernel ↦ ground (arith, valid, kernel)
        ]
        | inr none_ ↦ ground (arith, none_)
      ])
  | inr apart ↦ ground (arith, apart)
]

pub copied-none :
    (m : Memory) (idx1 idx2 op np idx a j : ℕ) → m.entries a j ≡ copied m idx1 idx2 op np idx 0 a j
copied-none m idx1 idx2 op np idx a j = ground arith

pub copied-suc :
    (m m1 : Memory) (idx1 idx2 op np idx k a j : ℕ)
    → op ≢ np
    → ((b i : ℕ) → m1.entries b i ≡ copied m idx1 idx2 op np idx 1 b i)
    → copied m1 idx1 idx2 op np (suc idx) k a j ≡ copied m idx1 idx2 op np idx (suc k) a j
copied-suc m m1 idx1 idx2 op np idx k a j d h = elim (Bool-cases (j == idx)) [
  | inl same ↦
      let out : (leb (suc idx) j && ltb j (suc idx + k)) ≡ false = ground (arith, same) in
      let here : (leb idx j && ltb j (idx + 1)) ≡ true = ground (arith, same) in
      let all : (leb idx j && ltb j (idx + suc k)) ≡ true = ground (arith, same) in
      let e = h a j in rw (out, all) (e ∙ rw here refl)
  | inr apart ↦
      let out : (leb idx j && ltb j (idx + 1)) ≡ false = ground (arith, apart) in
      let old : (b : ℕ) → m1.entries b j ≡ m.entries b j = λ b. h b j ∙ rw out refl in
      let same : (leb (suc idx) j && ltb j (suc idx + k)) ≡ (leb idx j && ltb j (idx + suc k)) =
        ground (arith, apart) in
      rw (same, old op, old a) refl
]

pub stepped-ref_cnt :
    (m : Memory) (vaddr op np idx q : ℕ)
    → (stepped m vaddr
          (record { table = op; index = idx })
          (record { table = np; index = idx })).frames.ref_cnt
        q
      ≡ m.frames.ref_cnt q + users (m.entries op) idx 1 q
stepped-ref_cnt m vaddr op np idx q = elim (Bool-cases (Pte.is_valid (m.entries op idx))) [
  | inl valid ↦ elim (Bool-cases (Pte.is_user (m.entries op idx))) [
    | inl user ↦ ground (arith, valid, user)
    | inr kernel ↦ ground (arith, valid, kernel)
  ]
  | inr none_ ↦ ground (arith, none_)
]

pub users-one : (es : ℕ → ℕ) (idx q : ℕ) → users es idx 1 q ≤ 1
users-one es idx q =
    elim (Bool-cases (maps_user (es idx) && (Pte.paddr (es idx) / page_size == q))) [
      | inl one ↦ rw one (omega arith)
      | inr none_ ↦ rw none_ (omega arith)
    ]

pub stepped-max_memory :
    (m : Memory) (vaddr : ℕ) (o n : Slot)
    → (stepped m vaddr o n).frames.max_memory ≡ m.frames.max_memory
stepped-max_memory m vaddr o n = elim (Bool-cases (Pte.is_valid (read m o))) [
  | inl valid ↦ elim (Bool-cases (Pte.is_user (read m o))) [
    | inl user ↦ simp (valid, user)
    | inr kernel ↦ simp (valid, kernel)
  ]
  | inr none_ ↦ simp none_
]

pub stepped-IsForkable :
    (m : Memory) (idx1 idx2 op np idx k : ℕ)
    → op ≢ np
    → IsForkable m op idx (suc k)
    → IsForkable
        (stepped m
          (page_of idx1 idx2 idx)
          (record { table = op; index = idx })
          (record { table = np; index = idx }))
        op
        (suc idx)
        k
stepped-IsForkable m idx1 idx2 op np idx k d h =
    let o : Slot = record { table = op; index = idx } in
    let n : Slot = record { table = np; index = idx } in
    let v = page_of idx1 idx2 idx in
    let old : (i : ℕ) → suc idx ≤ i → (stepped m v o n).entries op i ≡ m.entries op i =
      λ i l. stepped-entries m idx1 idx2 op np idx op i d ∙ ground arith in
    let max = stepped-max_memory m v o n in
    record {
      leaves = λ i l valid.
          rw (old i l) (h.leaves i (omega arith) (sym (ap Pte.is_valid (old i l)) ∙ valid));
      counted = λ i l user.
          let c = h.counted i (omega arith) (sym (ap maps_user (old i l)) ∙ user) in
          rw (old i l) (rw max c);
      room = λ q.
          let more = users-one (m.entries op) idx q in
          omega (arith, h.room q, stepped-ref_cnt m v op np idx q, more);
    }
