-- ===== src/Tests/Directories.antt =====
-- The theorems on the directories of FAT32.
use mankoros.Base.{
  drop, ℕ, suc, ◌-◌, ◌*◌, ◌/◌, ◌≡◌, ◌==◌, refl, Bool, true, false, if◌then◌else◌, none, some, List,
  [], ◌∷◌, ◌++◌, ltb, ◌&&◌, All, ok, ◌>>=◌, Returns, arith,
}
use mankoros.Dir
use mankoros.Dir.{Atom, FatDentryData}
use mankoros.Dir.Window.{Window, Sectors, Place}
use mankoros.Dir.Window
use mankoros.Dir.Name.{IsChar, long_name_correct}
use mankoros.Dir.Short.{short_name_correct}
use mankoros.Dir.Scan.{Layout, IsWindow, new-IsWindow}
use mankoros.Dir.Right.{Moves, move_right_one_correct}
use mankoros.Dir.Middle.{new_middle-first}

-- "kernel-config.txt"
abbrev long_name : FatDentryData
long_name = record {
  attr = 0x20;
  begin_cluster = 9;
  name =
      107 ∷ 101 ∷ 114 ∷ 110 ∷ 101 ∷ 108 ∷ 45 ∷ 99 ∷ 111 ∷ 110 ∷ 102 ∷ 105 ∷ 103 ∷ 46 ∷ 116 ∷ 120
      ∷ 116 ∷ [];
  size = 100;
}

-- "init"
abbrev short_name : FatDentryData
short_name = record {
  attr = 0x20;
  begin_cluster = 0x1_0002;
  name = 105 ∷ 110 ∷ 105 ∷ 116 ∷ [];
  size = 70000;
}

-- what a removed entry left: "longer" behind the mark
abbrev used : Atom
used j = if j == 0 then 0xe5 else if j == 4 then 101 else if j == 5 then 114 else 0x20

abbrev are_chars : List ℕ → Bool
are_chars [] = true
are_chars (x ∷ xs) = ltb 0 x && ltb x 128 && are_chars xs

are_chars-All : (xs : List ℕ) → are_chars xs ≡ true → All IsChar xs
are_chars-All [] h = tt
are_chars-All (x ∷ xs) h = (ground (arith, h), are_chars-All xs (ground (arith, h)))

long_name_correct_example :
    Dir.collect_name (Dir.write_entry long_name (λ k. used))
    ≡ drop ((17 - 1) / 13 * 13) long_name.name
long_name_correct_example =
    long_name_correct long_name (λ k. used) (are_chars-All long_name.name refl) (omega arith)
      (omega arith) (omega arith)

short_name_correct_example :
    Dir.collect_name (Dir.write_entry short_name (λ k. used))
    ≡ short_name.name ++ Dir.shown (Dir.bytes_at used 4 (8 - 4))
short_name_correct_example =
    short_name_correct short_name (λ k. used)
      (
        (omega arith, omega arith, omega arith),
        (
          (omega arith, omega arith, omega arith),
          ((omega arith, omega arith, omega arith), ((omega arith, omega arith, omega arith), tt)),
        ),
      )
      (omega arith)

-- a directory of two sectors
abbrev two_sectors : Layout
two_sectors k = if k == 0 then some 100 else if k == 1 then some 101 else none

abbrev on_disk : Sectors
on_disk = record { next_sector = λ s. ok (if s == 100 then some 101 else none); appended = ok 102 }

abbrev entries : ℕ → ℕ → Atom
entries s k j = if s == 100 then 65 else 0

first_view-IsWindow : IsWindow two_sectors (Window.new 100)
first_view-IsWindow = new-IsWindow two_sectors 100 refl

two_sectors-on_disk :
    (k s : ℕ) → two_sectors k ≡ some s → on_disk.next_sector s ≡ ok (two_sectors (suc k))
two_sectors-on_disk k s h = ground (arith, h)

move_right_one_correct_example :
    Returns
      (Moves two_sectors entries (Window.new 100))
      (Window.move_right_one on_disk entries (Window.new 100))
unfolding Window.new
move_right_one_correct_example =
    move_right_one_correct two_sectors on_disk entries (Window.new 100) first_view-IsWindow
      two_sectors-on_disk refl (omega arith)

-- the window that holds the first sector, behind its first two entries
abbrev moved : Window
moved = record {
  sector_bufs = 100 ∷ [];
  in_append = false;
  next_sector = some 101;
  begin_pos = 0;
  left_pos = 0;
  right_pos = 64;
}

moved-IsWindow : IsWindow two_sectors moved
moved-IsWindow = record {
  aligned = refl;
  begin_left = omega arith;
  left_right = omega arith;
  atoms = (refl, refl);
  loaded = omega arith;
  held = λ i h. ground arith;
  follows = refl;
  bounded = omega arith;
}

new_middle-first_example :
    Returns
      (λ (o, w). o ≡ some (record { sector = 100; index = 0 }))
      (Window.new_middle 100 96 >>= Window.move_right_one on_disk entries)
unfolding Dir.is_end
new_middle-first_example =
    new_middle-first on_disk entries 100 96 (some 101) refl (omega arith) refl refl
