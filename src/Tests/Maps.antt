-- ===== src/Tests/Maps.antt =====
-- The theorems on `RangeMap` at a map with a file area of three pages and an anonymous page.
use mankoros.Base.{
  ℕ, ◌≡◌, ◌≢◌, refl, inl, inr, some, [], ◌∷◌, ok, Returns, add_usize, sub_usize, ◌==◌, arith,
}
use mankoros.Address.Virt
use mankoros.RangeMap
use mankoros.RangeMap.{Node, RangeMap}
use mankoros.RangeMap.View.{view}
use mankoros.RangeMap.Lookup.{Holds, shown, get_correct}
use mankoros.RangeMap.FindFree.{find_free_range-skips_gaps}
use mankoros.RangeMap.FindFree.Total.{Placed, find_free_range_correct}
use mankoros.RangeMap.Insert.{Inserted, try_insert_correct}
use mankoros.RangeMap.Remove.{Removed, remove_correct}
use mankoros.RangeMap.Merge.{Joins}
use mankoros.UserSpace.Perm.{read_write}
use mankoros.UserSpace.Area.{
  UserArea, mmap_anonymous, mmap_private, split_and_make_left, split_and_make_right,
}
use mankoros.UserSpace.Split.{area_at, CanSplit, split_correct}
use mankoros.UserSpace.Manager.{Areas, mmap_offset}
use mankoros.UserSpace.Place.{mmap-Grows, mmap-IsTotal}

abbrev file_area : UserArea ℕ ℕ
file_area = record { kind = mmap_private 7 0; perm = read_write }

abbrev anonymous_area : UserArea ℕ ℕ
anonymous_area = record { kind = mmap_anonymous; perm = read_write }

abbrev file_node : Node (UserArea ℕ ℕ)
file_node = record { end = 0x4000; value = file_area }

abbrev last_node : Node (UserArea ℕ ℕ)
last_node = record { end = 0x7000; value = anonymous_area }

abbrev two_areas : Areas ℕ ℕ
two_areas = (0x1000, file_node) ∷ (0x6000, last_node) ∷ []

-- numbers as values, the same at each address
abbrev value_at : ℕ → ℕ → ℕ → ℕ
value_at v a k = v

abbrev touching : RangeMap ℕ
touching = (0, record { end = 2; value = 5 }) ∷ (2, record { end = 6; value = 5 }) ∷ []

remove_correct_example :
    Returns
      (Removed area_at two_areas 0x2000 0x3000)
      (RangeMap.remove two_areas 0x2000 0x3000 split_and_make_left split_and_make_right [])
remove_correct_example =
    remove_correct area_at CanSplit split_and_make_left split_and_make_right split_correct.0
      split_correct.1 two_areas 0x2000 0x3000
      (omega arith, omega arith, (omega arith, omega arith, tt)) (omega arith)
      (inr (inr (omega arith)), (inr (inl (omega arith)), tt))
      (inr (inr (omega arith)), (inr (inl (omega arith)), tt))

try_insert_correct_example :
    Returns
      (Inserted area_at two_areas 0x4000 0x6000 anonymous_area)
      (RangeMap.try_insert two_areas 0x4000 0x6000 anonymous_area)
try_insert_correct_example =
    try_insert_correct area_at two_areas 0x4000 0x6000 anonymous_area
      (omega arith, omega arith, (omega arith, omega arith, tt)) (omega arith)

get_correct_example :
    (shown area_at 0x3000 (RangeMap.get two_areas 0x3000) ≡ view area_at two_areas 0x3000)
    × Holds area_at 0x3000 (RangeMap.get two_areas 0x3000)
get_correct_example =
    get_correct area_at two_areas 0x3000 (omega arith, omega arith, (omega arith, omega arith, tt))

find_free_range_correct_example :
    Returns
      (Placed area_at mmap_offset 0x9000 0x800 two_areas 0x1000)
      (RangeMap.find_free_range two_areas 0x1000 0x9000 0x800 mmap_offset)
find_free_range_correct_example =
    find_free_range_correct area_at mmap_offset 0x9000 0x800 0x9000 two_areas 0x1000
      (mmap-IsTotal 0x800 0x9000 (omega arith)) mmap-Grows
      (omega arith, omega arith, (omega arith, omega arith, tt))
      (inr (inl (omega arith)), (inr (inl (omega arith)), tt)) (omega arith, (omega arith, tt))
      (omega arith)

find_free_range-skips_gaps_example :
    RangeMap.find_free_range two_areas 0 0x7000 0x800 mmap_offset ≢ ok (some (0x4000, 0x5000))
unfolding mmap_offset add_usize Virt.ceil sub_usize
find_free_range-skips_gaps_example =
    find_free_range-skips_gaps mmap_offset mmap-Grows ((0x1000, file_node) ∷ []) [] 0x6000 last_node
      0 0x7000 0x800 0x8000 0x4000 0x5000 (omega arith, omega arith, (omega arith, omega arith, tt))
      (omega arith) (omega arith) refl (omega arith)

equal_joins : Joins value_at ◌==◌
equal_joins u v a b k e h p = ground arith
