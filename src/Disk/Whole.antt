-- ===== src/Disk/Whole.antt =====
-- Writing a buffer over the blocks of the disk.
use mankoros.Base.{
  ℕ, zero, suc, ◌+◌, ◌-◌, ◌*◌, ◌≤◌, ◌<◌, ◌≡◌, refl, sym, ap, ◌∙◌, false, Option, none, some, Run,
  List, [], ◌∷◌, ◌==◌, leb, length, min, arith, ◌⊎◌, inl, inr, Bool-cases, Returns, returns,
  Returns-map,
}
use mathlib.Core.Path.{subst}
use mankoros.Errors.{eio, SysResult, done, err}
use mankoros.Disk.Defs.{
  block_size, Disk, size, position, set_position, rest_of, after_write, write_one, write_loop,
  sync_write_at,
}
use mankoros.Disk.Bytes.{IsCursor, byte_of, Written, Calls, Failed, Wrote, write_one_correct}

byte_of-rest_of : (n i : ℕ) (buf : List ℕ) → byte_of (rest_of n buf) i ≡ byte_of buf (n + i)
byte_of-rest_of zero i buf = ap (byte_of buf) (omega arith)
byte_of-rest_of (suc n) i [] = refl
byte_of-rest_of (suc n) i (b ∷ buf) =
    let e : suc n + i ≡ suc (n + i) = omega arith in
    byte_of-rest_of n i buf ∙ ap (byte_of (b ∷ buf)) (sym e)

length-rest_of : (n : ℕ) (buf : List ℕ) → length (rest_of n buf) ≡ length buf - n
length-rest_of zero buf = omega arith
length-rest_of (suc n) [] = omega arith
length-rest_of (suc n) (b ∷ buf) = omega (arith, length-rest_of n buf)

-- two writes, the second behind the first
Written-trans :
    (d d' d'' : Disk) (pos n k : ℕ) (buf : List ℕ)
    → Written d pos n buf d'
    → Written d' (pos + n) k (rest_of n buf) d''
    → Written d pos (n + k) buf d''
Written-trans d d' d'' pos n k buf (c, w) (c', w') = (
  c' ∙ c,
  λ q. elim (Bool-cases (leb (pos + n) q)) [
    | inl later ↦
        let l : pos + n ≤ q = ground (arith, later) in
        let e : n + (q - (pos + n)) ≡ q - pos = omega arith in
        let r = byte_of-rest_of n (q - (pos + n)) buf ∙ ap (byte_of buf) e in
        ground (arith, w q, w' q, r, later)
    | inr before ↦ ground (arith, w q, w' q, before)
  ],
)

Written-none : (d d' : Disk) (pos : ℕ) (buf : List ℕ) → d' ≡ d → Written d pos 0 buf d'
Written-none d d' pos buf e = rw e (refl, λ q. ground arith)

-- what the whole write does
abbrev pub Result : Disk → List ℕ → ℕ → SysResult ℕ × Disk → Type 0
Result d buf write_len (r, d') =
    ((position d + length buf ≤ size d)
      × (r ≡ done (write_len + length buf))
      × Written d (position d) (length buf) buf d')
    ⊎ ((size d < position d + length buf) × ((length buf ≡ 0) ⊎ (r ≡ err eio)))
    ⊎ ((r ≡ err eio) × Failed d d')

Result-trans :
    (d d' : Disk) (buf : List ℕ) (n write_len : ℕ) (t : SysResult ℕ × Disk)
    → n ≡ min (length buf) (block_size - d.offset)
    → position d' ≡ position d + n
    → d.block_id < d.num_blocks
    → 0 < n
    → Written d (position d) n buf d'
    → Calls d d'
    → Result d' (rest_of n buf) (write_len + n) t
    → Result d buf write_len t
unfolding size position
Result-trans d d' buf n write_len t en ep inside pos_n w same (inl (fits, r, w')) =
    let l = length-rest_of n buf in
    let all : n + length (rest_of n buf) ≡ length buf = omega (arith, l, en) in
    let sum : write_len + n + length (rest_of n buf) ≡ write_len + length buf =
      omega (arith, all) in
    let joined =
      Written-trans d d' t.1 (position d) n (length (rest_of n buf)) buf w
        (subst (λ p. Written d' p (length (rest_of n buf)) (rest_of n buf) t.1) ep w') in
    inl (
      omega (arith, fits, w.0, ep, all),
      r ∙ ap done sum,
      subst (λ k. Written d (position d) k buf t.1) all joined,
    )
Result-trans d d' buf n write_len t en ep inside pos_n w same (inr (inl (over, r))) =
    let l = length-rest_of n buf in
    inr (
      inl (
        omega (arith, over, w.0, ep, l, en),
        elim r [
          | inl nothing ↦ absurd (omega (arith, over, w.0, ep, l, en, inside, nothing))
          | inr failed ↦ inr failed
        ],
      ))
Result-trans d d' buf n write_len t en ep inside pos_n w (does, more)
      (inr (inr (r, (c, from, before, failed)))) =
    inr (inr (r, (c, omega (arith, more, from), before, sym (ap (λ f. f c) does) ∙ failed)))

-- what is there after one write, where the rest of the loop does what it should
after_write_correct :
    (d : Disk) (b : ℕ) (buf : List ℕ) (write_len : ℕ) (o : Option ℕ × Disk)
    (again : ℕ → Disk → Run (SysResult ℕ × Disk))
    → IsCursor d
    → Wrote d (b ∷ buf) o
    → ((n : ℕ) (d' : Disk)
        → IsCursor d'
        → 0 < n
        → Returns (Result d' (rest_of n (b ∷ buf)) (write_len + n)) (again n d'))
    → Returns (Result d (b ∷ buf) write_len) (after_write o write_len again)
unfolding size position
after_write_correct d b buf write_len (none, d') again h (inl past) k =
    returns (inr (inl (omega arith, inr refl)))
after_write_correct d b buf write_len (none, d') again h (inr failed) k =
    returns (inr (inr (refl, failed)))
after_write_correct d b buf write_len (some n, d') again h (inside, (h', en, ep, w, same)) k =
    let pos_n : 0 < n = omega (arith, en) in
    let some_ : (n == 0) ≡ false = ground arith in
    rw some_ (
      Returns-map (k n d' h' pos_n)
        (λ t r. Result-trans d d' (b ∷ buf) n write_len t en ep inside pos_n w same r))

-- the loop ends, with fuel for each byte
write_loop_correct :
    (fuel : ℕ) (d : Disk) (buf : List ℕ) (write_len : ℕ)
    → IsCursor d
    → length buf < fuel
    → Returns (Result d buf write_len) (write_loop fuel d buf write_len)
unfolding write_loop size position
write_loop_correct zero d buf write_len h l = absurd (omega arith)
write_loop_correct (suc fuel) d [] write_len h l =
    elim (Bool-cases (leb (position d) (d.num_blocks * block_size))) [
      | inl within ↦ returns (
          inl
            (ground (arith, within), ap done (omega arith), Written-none d d (position d) [] refl))
      | inr past ↦ returns (inr (inl (ground (arith, past), inl refl)))
    ]
write_loop_correct (suc fuel) d (b ∷ buf) write_len h l =
    after_write_correct d b buf write_len (write_one d (b ∷ buf)) _ h
      (write_one_correct d (b ∷ buf) h)
      (λ n d' h' pos_n.
        write_loop_correct fuel d' (rest_of n (b ∷ buf)) (write_len + n) h'
          (omega (arith, length-rest_of n (b ∷ buf))))

set_position-position : (d : Disk) (pos : ℕ) → position (set_position d pos) ≡ pos
unfolding set_position position
set_position-position d pos = omega arith

set_position-IsCursor : (d : Disk) (pos : ℕ) → IsCursor (set_position d pos)
unfolding set_position
set_position-IsCursor d pos = omega arith

set_position-Result :
    (d : Disk) (pos : ℕ) (buf : List ℕ) (t : SysResult ℕ × Disk)
    → Result (set_position d pos) buf 0 t
    → ((pos + length buf ≤ size d) × (t.0 ≡ done (length buf)) × Written d pos (length buf) buf t.1)
      ⊎ ((size d < pos + length buf) × ((length buf ≡ 0) ⊎ (t.0 ≡ err eio)))
      ⊎ ((t.0 ≡ err eio) × Failed d t.1)
unfolding set_position size
set_position-Result d pos buf t (inl (fits, r, w)) =
    let at = set_position-position d pos in
    let sum : 0 + length buf ≡ length buf = omega arith in
    inl
      (omega (arith, fits, at), r ∙ ap done sum, subst (λ p. Written d p (length buf) buf t.1) at w)
set_position-Result d pos buf t (inr (inl (over, r))) =
    inr (inl (omega (arith, over, set_position-position d pos), r))
set_position-Result d pos buf t (inr (inr failed)) = inr (inr failed)

-- Writing a buffer at a position ends. It writes the whole buffer, exactly there, and says so,
-- where that fits on the disk; or the disk is too short, and it fails, if there is anything to
-- write; or it fails since the device did not do one of the calls made.
pub sync_write_at_correct :
    (d : Disk) (offset : ℕ) (buf : List ℕ)
    → Returns
        (λ (r, d').
          ((offset + length buf ≤ size d)
            × (r ≡ done (length buf))
            × Written d offset (length buf) buf d')
          ⊎ ((size d < offset + length buf) × ((length buf ≡ 0) ⊎ (r ≡ err eio)))
          ⊎ ((r ≡ err eio) × Failed d d'))
        (sync_write_at d offset buf)
unfolding sync_write_at
sync_write_at_correct d offset buf =
    Returns-map
      (write_loop_correct (length buf + 1) (set_position d offset) buf 0
        (set_position-IsCursor d offset) (omega arith))
      (set_position-Result d offset buf)
