-- ===== src/Dir/Scan.antt =====
-- Which entries of a directory a window reads and writes.
use mankoros.Base.{
  ℕ, zero, suc, ◌+◌, ◌-◌, ◌*◌, ◌/◌, ◌%◌, ◌^◌, ◌<◌, ◌≤◌, ◌≡◌, refl, sym, ap, ◌∙◌, true, leb, Option,
  some, List, [], ◌∷◌, ◌++◌, length, get_elem?, arith, ok, Returns, Returns-of, add_usize-ok,
  sub_usize-ok, get_elem?_inside,
}
use mankoros.Dir.Window.{
  Window, new, as_byte_offset, is_null, buf_idx, offset_ade, as_ade_offset, get_in_buf, get_in_dir,
  move_left, pop_fronts, block_size, dentry_size,
}

pub get_elem?-append_left :
    (xs ys : List ℕ) (i : ℕ) → i < length xs → get_elem? (xs ++ ys) i ≡ get_elem? xs i
get_elem?-append_left [] ys i h = absurd (omega arith)
get_elem?-append_left (x ∷ xs) ys zero h = refl
get_elem?-append_left (x ∷ xs) ys (suc i) h = get_elem?-append_left xs ys i (omega arith)

pub get_elem?-append_last : (xs : List ℕ) (y : ℕ) → get_elem? (xs ++ y ∷ []) (length xs) ≡ some y
get_elem?-append_last [] y = refl
get_elem?-append_last (x ∷ xs) y = get_elem?-append_last xs y

-- the sectors of a directory, from its first
abbrev pub Layout : Type 0
Layout = ℕ → Option ℕ

-- The window holds the sectors of the directory from a sector boundary on, up to its right end.
pub record IsWindow (sectors : Layout) (w : Window) : Type 0 where
  pub aligned : w.begin_pos % block_size ≡ 0
  pub begin_left : w.begin_pos ≤ w.left_pos
  pub left_right : w.left_pos ≤ w.right_pos
  pub atoms : (w.left_pos % dentry_size ≡ 0) × (w.right_pos % dentry_size ≡ 0)
  pub loaded : w.right_pos ≤ w.begin_pos + length w.sector_bufs * block_size
  pub held :
      (i : ℕ)
      → i < length w.sector_bufs
      → get_elem? w.sector_bufs i ≡ sectors (w.begin_pos / block_size + i)
  pub follows : w.next_sector ≡ sectors (w.begin_pos / block_size + length w.sector_bufs)
  pub bounded : w.begin_pos + length w.sector_bufs * block_size < 2 ^ 63

pub offset_ok : (p : ℕ) → p < 2 ^ 63 → as_byte_offset p ≡ ok p
unfolding as_byte_offset is_null
offset_ok p h = ground arith

pub get_in_dir-place :
    (w : Window) (pos d : ℕ) (s : ℕ)
    → w.begin_pos ≤ pos
    → pos < 2 ^ 63
    → pos / dentry_size ≡ w.begin_pos / dentry_size + d
    → get_elem? w.sector_bufs (d / 16) ≡ some s
    → get_in_dir w pos ≡ ok (record { sector = s; index = d % 16 })
unfolding get_in_dir as_ade_offset get_in_buf
get_in_dir-place w pos d s l b e f =
    let c = sub_usize-ok (pos / dentry_size) (w.begin_pos / dentry_size) (omega arith) in
    let same : pos / dentry_size - w.begin_pos / dentry_size ≡ d = omega arith in
    rw (offset_ok pos b, offset_ok w.begin_pos (omega arith), c, same, f) refl

-- A window that holds the sectors of the directory finds the entry at a position between its ends in the
-- sector of that position.
pub get_in_dir_correct :
    (sectors : Layout) (w : Window) (pos : ℕ)
    → IsWindow sectors w
    → w.left_pos ≤ pos
    → pos < w.right_pos
    → Returns
        (λ p.
          (some p.sector ≡ sectors (pos / block_size)) × (p.index ≡ pos % block_size / dentry_size))
        (get_in_dir w pos)
get_in_dir_correct sectors w pos h l r =
    let i = (pos - w.begin_pos) / block_size in
    let d = pos / dentry_size - w.begin_pos / dentry_size in
    let inside : i < length w.sector_bufs = omega (arith, h.loaded, h.begin_left) in
    let (s, e) = get_elem?_inside w.sector_bufs i inside in
    let same : d / 16 ≡ i = omega (arith, h.aligned, h.begin_left) in
    let where_ : w.begin_pos / block_size + i ≡ pos / block_size =
      omega (arith, h.aligned, h.begin_left) in
    Returns-of
      (get_in_dir-place w pos d s (omega (arith, h.begin_left)) (omega (arith, h.loaded, h.bounded))
        (omega (arith, h.begin_left)) (rw same e))
      (sym e ∙ h.held i inside ∙ ap sectors where_, omega (arith, h.aligned, h.begin_left))

-- A new window at the first sector of the directory holds its sectors.
pub new-IsWindow : (sectors : Layout) (s : ℕ) → sectors 0 ≡ some s → IsWindow sectors (new s)
unfolding new
new-IsWindow sectors s e = record {
  aligned = omega arith;
  begin_left = omega arith;
  left_right = omega arith;
  atoms = (omega arith, omega arith);
  loaded = omega arith;
  held = λ i h. absurd (omega arith);
  follows = sym e;
  bounded = omega arith;
}

get_elem?-pop_fronts :
    (n i : ℕ) (bufs : List ℕ) → get_elem? (pop_fronts n bufs) i ≡ get_elem? bufs (n + i)
get_elem?-pop_fronts zero i bufs = ap (get_elem? bufs) (omega arith)
get_elem?-pop_fronts (suc n) i [] = refl
get_elem?-pop_fronts (suc n) i (b ∷ bufs) =
    let e : suc n + i ≡ suc (n + i) = omega arith in
    get_elem?-pop_fronts n i bufs ∙ ap (get_elem? (b ∷ bufs)) (sym e)

length-pop_fronts : (n : ℕ) (bufs : List ℕ) → length (pop_fronts n bufs) ≡ length bufs - n
length-pop_fronts zero bufs = omega arith
length-pop_fronts (suc n) [] = omega arith
length-pop_fronts (suc n) (b ∷ bufs) = omega (arith, length-pop_fronts n bufs)

pub buf_idx_ok :
    (w : Window) (pos : ℕ)
    → w.begin_pos ≤ pos
    → pos < 2 ^ 63
    → buf_idx w pos ≡ ok ((pos - w.begin_pos) / block_size)
unfolding buf_idx
buf_idx_ok w pos l b =
    rw (offset_ok pos b, offset_ok w.begin_pos (omega arith), sub_usize-ok pos w.begin_pos l) refl

pub offset_ade_ok :
    (pos n : ℕ) → pos + n * dentry_size < 2 ^ 63 → offset_ade pos n ≡ ok (pos + n * dentry_size)
unfolding offset_ade
offset_ade_ok pos n b =
    rw (offset_ok pos (omega arith), add_usize-ok pos (n * dentry_size) (omega arith)) refl

-- the window with its left end at the entry `left`, where `passed` buffers are left behind
abbrev pub left_at : Window → ℕ → ℕ → Window
left_at w left passed = record w {
  sector_bufs = pop_fronts passed w.sector_bufs;
  begin_pos = w.begin_pos + passed * block_size;
  left_pos = left;
}

move_left-left_at :
    (w : Window) (n : ℕ)
    → w.begin_pos ≤ w.left_pos
    → w.left_pos + n * dentry_size ≤ w.right_pos
    → w.right_pos < 2 ^ 63
    → move_left w n
      ≡ ok (
          left_at w
            (w.left_pos + n * dentry_size)
            ((w.left_pos + n * dentry_size - w.begin_pos) / block_size))
unfolding move_left
move_left-left_at w n g l b =
    let left = w.left_pos + n * dentry_size in
    let inside : leb left w.right_pos ≡ true = ground arith in
    let passed = (left - w.begin_pos) / block_size in
    rw
      (
        offset_ade_ok w.left_pos n (omega arith),
        inside,
        buf_idx_ok w left (omega arith) (omega arith),
        add_usize-ok w.begin_pos (passed * block_size) (omega arith),
      )
      refl

left_at-IsWindow :
    (sectors : Layout) (w : Window) (left : ℕ)
    → IsWindow sectors w
    → left % dentry_size ≡ 0
    → w.left_pos ≤ left
    → left ≤ w.right_pos
    → IsWindow sectors (left_at w left ((left - w.begin_pos) / block_size))
left_at-IsWindow sectors w left h al l r =
    let n = (left - w.begin_pos) / block_size in
    let q = length-pop_fronts n w.sector_bufs in
    let some_left : n ≤ length w.sector_bufs =
      omega (arith, h.aligned, h.bounded, h.loaded, h.begin_left, h.left_right) in
    record {
      aligned = omega (arith, h.aligned, h.bounded, h.loaded, h.begin_left, h.left_right);
      begin_left = omega (arith, h.aligned, h.bounded, h.loaded, h.begin_left, h.left_right);
      left_right = r;
      atoms = (al, h.atoms.1);
      loaded = omega (arith, h.aligned, h.bounded, h.loaded, h.begin_left, h.left_right, q);
      held = λ i less.
          let same : w.begin_pos / block_size + (n + i)
              ≡ (w.begin_pos + n * block_size) / block_size + i =
            omega (arith, h.aligned, h.bounded, h.loaded, h.begin_left, h.left_right) in
          get_elem?-pop_fronts n i w.sector_bufs
          ∙ h.held (n + i) (omega (arith, q, less))
          ∙ ap sectors same;
      follows =
          let same : w.begin_pos / block_size + length w.sector_bufs
              ≡ (w.begin_pos + n * block_size) / block_size + length (pop_fronts n w.sector_bufs) =
            omega
              (arith, h.aligned, h.bounded, h.loaded, h.begin_left, h.left_right, q, some_left) in
          h.follows ∙ ap sectors same;
      bounded =
          omega (arith, h.aligned, h.bounded, h.loaded, h.begin_left, h.left_right, q, some_left);
    }

-- Moving the left end over entries of the window does not panic, and keeps the window on the directory.
pub move_left-IsWindow :
    (sectors : Layout) (w : Window) (n : ℕ)
    → IsWindow sectors w
    → w.left_pos + n * dentry_size ≤ w.right_pos
    → Returns
        (λ w'.
          IsWindow sectors w'
          × (w'.left_pos ≡ w.left_pos + n * dentry_size)
          × (w'.right_pos ≡ w.right_pos))
        (move_left w n)
move_left-IsWindow sectors w n h l =
    let left = w.left_pos + n * dentry_size in
    Returns-of
      (move_left-left_at w n h.begin_left l
        (omega (arith, h.aligned, h.bounded, h.loaded, h.begin_left, h.left_right)))
      (left_at-IsWindow sectors w left h (omega (arith, h.atoms.0)) (omega arith) l, refl, refl)
