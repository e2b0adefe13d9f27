-- ===== src/Dir/Right.antt =====
-- The right end of a window moves over the entries of the directory.
use mankoros.Base.{
  ℕ, suc, ◌+◌, ◌-◌, ◌*◌, ◌/◌, ◌%◌, ◌^◌, ◌<◌, ◌≡◌, ◌≢◌, Bool, refl, sym, ap, ◌∙◌, true, false, not,
  ◌&&◌, ◌==◌, if◌then◌else◌, leb, ltb, Option, none, some, [], ◌∷◌, ◌++◌, length, arith, ◌⊎◌, inl,
  inr, Bool-cases, ok, Returns, Returns-of, length-append, Returns-inv, Option-cases,
}
use mankoros.Dir.Defs.{Atom, is_end}
use mankoros.Dir.Window.{
  Window, Sectors, Place, buf_idx, get_in_dir, move_right_one, load_current, block_size,
  dentry_size,
}
use mankoros.Dir.Scan.{
  Layout, IsWindow, get_elem?-append_left, get_elem?-append_last, get_in_dir_correct, buf_idx_ok,
  offset_ade_ok,
}

-- the current sector is loaded, or it is the next one, or there is none
load_current-held :
    (ss : Sectors) (w : Window) (i : ℕ)
    → i < length w.sector_bufs
    → load_current ss w i ≡ ok (true, w)
unfolding load_current
load_current-held ss w i h =
    let e : leb (length w.sector_bufs) i ≡ false = ground arith in rw e refl

pub load_current-next :
    (ss : Sectors) (w : Window) (i s : ℕ) (n : Option ℕ)
    → i ≡ length w.sector_bufs
    → w.next_sector ≡ some s
    → ss.next_sector s ≡ ok n
    → load_current ss w i
      ≡ ok (true, record w { sector_bufs = w.sector_bufs ++ s ∷ []; next_sector = n })
unfolding load_current
load_current-next ss w i s n h e f =
    let g : leb (length w.sector_bufs) i ≡ true = ground arith in
    let k : (i == length w.sector_bufs) ≡ true = ground arith in rw (g, k, e, f) refl

load_current-none :
    (ss : Sectors) (w : Window) (i : ℕ)
    → i ≡ length w.sector_bufs
    → w.next_sector ≡ none
    → w.in_append ≡ false
    → load_current ss w i ≡ ok (false, w)
unfolding load_current
load_current-none ss w i h e f =
    let g : leb (length w.sector_bufs) i ≡ true = ground arith in
    let k : (i == length w.sector_bufs) ≡ true = ground arith in simp (g, k, e, f)

pub move_right_one-moved :
    (ss : Sectors) (disk : ℕ → ℕ → Atom) (w w1 : Window) (i : ℕ) (p : Place)
    → buf_idx w w.right_pos ≡ ok i
    → load_current ss w i ≡ ok (true, w1)
    → i < length w1.sector_bufs
    → w.right_pos + dentry_size < 2 ^ 63
    → get_in_dir (record w1 { right_pos = w.right_pos + 1 * dentry_size }) w.right_pos ≡ ok p
    → move_right_one ss disk w
      ≡ ok (
        if is_end (disk p.sector p.index) && not w.in_append then none else some p,
        record w1 { right_pos = w.right_pos + 1 * dentry_size },
      )
unfolding move_right_one
move_right_one-moved ss disk w w1 i p e f l b g =
    let k : ltb i (length w1.sector_bufs) ≡ true = ground arith in
    rw (e, f, k, offset_ade_ok w.right_pos 1 (omega arith), g) refl

move_right_one-none :
    (ss : Sectors) (disk : ℕ → ℕ → Atom) (w : Window) (i : ℕ)
    → buf_idx w w.right_pos ≡ ok i
    → load_current ss w i ≡ ok (false, w)
    → move_right_one ss disk w ≡ ok (none, w)
unfolding move_right_one
move_right_one-none ss disk w i e f = rw (e, f) refl

-- the window with a further sector is on the directory
next-IsWindow :
    (sectors : Layout) (w : Window) (s : ℕ)
    → IsWindow sectors w
    → w.next_sector ≡ some s
    → w.begin_pos + length w.sector_bufs * block_size + block_size < 2 ^ 63
    → IsWindow sectors (record w {
      sector_bufs = w.sector_bufs ++ s ∷ [];
      next_sector = sectors (suc (w.begin_pos / block_size + length w.sector_bufs));
    })
next-IsWindow sectors w s h e b =
    let l = length-append w.sector_bufs (s ∷ []) in
    record {
      aligned = h.aligned;
      begin_left = h.begin_left;
      left_right = h.left_right;
      atoms = h.atoms;
      loaded = omega (arith, h.loaded, l);
      held = λ i less. elim (Bool-cases (ltb i (length w.sector_bufs))) [
        | inl old ↦
            let inside : i < length w.sector_bufs = ground (arith, old) in
            get_elem?-append_left w.sector_bufs (s ∷ []) i inside ∙ h.held i inside
        | inr new_one ↦
            let last : i ≡ length w.sector_bufs = ground (arith, new_one, l, less) in
            rw (last, get_elem?-append_last w.sector_bufs s) (sym e ∙ h.follows)
      ];
      follows = ap sectors (omega (arith, l));
      bounded = omega (arith, l);
    }

-- where the sector of the right end is there, the window moves over its entry
right-IsWindow :
    (sectors : Layout) (w : Window)
    → IsWindow sectors w
    → w.right_pos < w.begin_pos + length w.sector_bufs * block_size
    → IsWindow sectors (record w { right_pos = w.right_pos + 1 * dentry_size })
right-IsWindow sectors w h l = record {
  aligned = h.aligned;
  begin_left = h.begin_left;
  left_right = omega (arith, h.left_right);
  atoms = (h.atoms.0, omega (arith, h.atoms.1));
  loaded = omega (arith, h.aligned, h.atoms.1);
  held = h.held;
  follows = h.follows;
  bounded = h.bounded;
}

is_end-zero : (a : Atom) → is_end a ≡ true → a 0 ≡ 0
unfolding is_end
is_end-zero a h = ground (arith, h)

is_end-not_zero : (a : Atom) → is_end a ≡ false → a 0 ≢ 0
unfolding is_end
is_end-not_zero a h = ground (arith, h)

-- what moving the right end gives: there is no sector for it and it stays, or it goes over the entry there,
-- which is given unless it ends the directory
abbrev pub Moves : Layout → (ℕ → ℕ → Atom) → Window → Option Place × Window → Type 0
Moves sectors disk w (o, w') =
    IsWindow sectors w'
    × (w'.left_pos ≡ w.left_pos)
    × (((o ≡ none) × (sectors (w.right_pos / block_size) ≡ none) × (w'.right_pos ≡ w.right_pos))
        ⊎ ((p : Place) × (w'.right_pos ≡ w.right_pos + dentry_size)
            × (some p.sector ≡ sectors (w.right_pos / block_size))
            × (p.index ≡ w.right_pos % block_size / dentry_size)
            × (((o ≡ none) × (disk p.sector p.index 0 ≡ 0))
                ⊎ ((o ≡ some p) × (disk p.sector p.index 0 ≢ 0)))))

-- the entry that was passed is given, unless its first byte is 0
given :
    (in_append : Bool) (a : Atom) (p : Place)
    → in_append ≡ false
    → (((if is_end a && not in_append then none else some p) ≡ none) × (a 0 ≡ 0))
      ⊎ (((if is_end a && not in_append then none else some p) ≡ some p) × (a 0 ≢ 0))
given in_append a p h = elim (Bool-cases (is_end a)) [
  | inl ended ↦ inl (rw (ended, h) refl, is_end-zero a ended)
  | inr live ↦ inr (rw live refl, is_end-not_zero a live)
]

module _ (sectors : Layout) (ss : Sectors) (disk : ℕ → ℕ → Atom) (w : Window)
    (h : IsWindow sectors w) where
  -- the entry is in a loaded sector
  move-Moves :
      (w1 : Window)
      → load_current ss w ((w.right_pos - w.begin_pos) / block_size) ≡ ok (true, w1)
      → IsWindow sectors w1
      → (w1.begin_pos ≡ w.begin_pos) × (w1.left_pos ≡ w.left_pos) × (w1.right_pos ≡ w.right_pos)
      → w.right_pos < w.begin_pos + length w1.sector_bufs * block_size
      → w.in_append ≡ false
      → Returns (Moves sectors disk w) (move_right_one ss disk w)
  move-Moves w1 e k (sb, sl, sr) l a =
      let w2 : Window = record w1 { right_pos = w.right_pos + 1 * dentry_size } in
      let right : IsWindow sectors w2 =
        rw (sym sr) (right-IsWindow sectors w1 k (omega (arith, l, sb, sr))) in
      let (p, g, f) = Returns-inv (
        get_in_dir_correct sectors w2 w.right_pos right (omega (arith, sl, h.left_right))
          (omega arith)) in
      Returns-of
        (move_right_one-moved ss disk w w1 _ p
          (buf_idx_ok w w.right_pos (omega (arith, h.begin_left, h.left_right))
            (omega (arith, h.loaded, h.bounded)))
          e (omega (arith, l, h.begin_left, h.left_right))
          (omega (arith, k.bounded, l, sb, k.aligned, h.atoms.1)) g)
        (right, sl, inr (p, omega arith, f.0, f.1, given w.in_append (disk p.sector p.index) p a))

  -- On a window that holds the sectors of the directory and does not append, with the sectors
  -- following each other as the directory has them, moving the right end does not panic: it goes
  -- over the next entry of the directory, which is found in its sector, or there is none, since the
  -- entry ends the directory or there are no more sectors. The window still holds the sectors of
  -- the directory.
  pub move_right_one_correct :
      ((k s : ℕ) → sectors k ≡ some s → ss.next_sector s ≡ ok (sectors (suc k)))
      → w.in_append ≡ false
      → w.begin_pos + length w.sector_bufs * block_size + block_size < 2 ^ 63
      → Returns (Moves sectors disk w) (move_right_one ss disk w)
  move_right_one_correct follows a b =
      let i = (w.right_pos - w.begin_pos) / block_size in
      elim (Bool-cases (ltb i (length w.sector_bufs))) [
        | inl old ↦
            let inside : i < length w.sector_bufs = ground (arith, old) in
            move-Moves w (load_current-held ss w i inside) h (refl, refl, refl)
              (omega (arith, inside, h.begin_left, h.left_right)) a
        | inr ended ↦
            let last : i ≡ length w.sector_bufs =
              ground (arith, ended, h.loaded, h.begin_left, h.left_right) in
            let place : w.right_pos / block_size ≡ w.begin_pos / block_size + length w.sector_bufs =
              omega (arith, last, h.aligned, h.begin_left, h.left_right) in
            elim (Option-cases w.next_sector) [
              | inl none_left ↦
                  Returns-of
                    (move_right_one-none ss disk w i
                      (buf_idx_ok w w.right_pos (omega (arith, h.begin_left, h.left_right))
                        (omega (arith, h.loaded, h.bounded)))
                      (load_current-none ss w i last none_left a))
                    (h, refl, inl (refl, ap sectors place ∙ sym h.follows ∙ none_left, refl))
              | inr (s, e) ↦
                  move-Moves _
                    (load_current-next ss w i s _ last e (follows _ s (sym h.follows ∙ e)))
                    (next-IsWindow sectors w s h e b) (refl, refl, refl)
                    (omega (arith, h.loaded, length-append w.sector_bufs (s ∷ []))) a
            ]
      ]
