-- ===== src/Dir/Middle.antt =====
-- A window at an entry in the middle of a directory.
use mankoros.Base.{
  ℕ, ◌+◌, ◌*◌, ◌/◌, ◌%◌, ◌^◌, ◌<◌, ◌≡◌, refl, ap, ◌∙◌, false, Option, some, [], ◌∷◌, arith, ok,
  ◌>>=◌, Returns, Returns-of,
}
use mankoros.Dir.Defs.{Atom, is_end}
use mankoros.Dir.Window.{
  Window, Sectors, new_middle, round_down_sct, buf_idx, move_right_one, dentry_size,
}
use mankoros.Dir.Scan.{offset_ok, get_in_dir-place, buf_idx_ok}
use mankoros.Dir.Right.{load_current-next, move_right_one-moved}

-- the window at an entry in the middle of a directory
abbrev middle : ℕ → ℕ → Window
middle sector gde_pos = record {
  sector_bufs = [];
  in_append = false;
  next_sector = some sector;
  begin_pos = gde_pos;
  left_pos = gde_pos;
  right_pos = gde_pos;
}

-- A window made for an entry in the middle of a directory reads the first entry of its sector,
-- wherever in the sector the entry is, where that first entry does not end the directory and
-- positions stay below 2^63.
pub new_middle-first :
    (ss : Sectors) (disk : ℕ → ℕ → Atom) (sector gde_pos : ℕ) (n : Option ℕ)
    → gde_pos % dentry_size ≡ 0
    → gde_pos + dentry_size < 2 ^ 63
    → ss.next_sector sector ≡ ok n
    → is_end (disk sector 0) ≡ false
    → Returns
        (λ (o, w). o ≡ some (record { sector = sector; index = 0 }))
        (new_middle sector gde_pos >>= move_right_one ss disk)
unfolding new_middle round_down_sct
new_middle-first ss disk sector gde_pos n al b e live =
    let same : gde_pos / 16 * 16 ≡ gde_pos = omega arith in
    let w = middle sector gde_pos in
    let k = load_current-next ss w 0 sector n refl refl e in
    let i : buf_idx w gde_pos ≡ ok 0 =
      buf_idx_ok w gde_pos (omega arith) (omega arith) ∙ ap ok (omega arith) in
    let g =
      get_in_dir-place
        (record w {
          sector_bufs = sector ∷ [];
          next_sector = n;
          right_pos = gde_pos + 1 * dentry_size;
        })
        gde_pos 0 sector (omega arith) (omega arith) (omega arith) refl in
    rw (offset_ok gde_pos (omega arith), same)
      (Returns-of (move_right_one-moved ss disk w _ 0 _ i k (omega arith) b g) (rw live refl))
