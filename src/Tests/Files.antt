-- ===== src/Tests/Files.antt =====
-- The theorems on the FAT table, on times and on paths.
use mankoros.Base.{ℕ, ◌≡◌, ◌⊎◌, refl, true, false, List, [], ◌∷◌, panic, Returns, arith}
use mankoros.Fat
use mankoros.Fat.{Layout}
use mankoros.Fat.Chain.{Linked, alloc_next_correct}
use mankoros.Fat.Sector.{IsSectorOf, sector_correct}
use mankoros.Fat.Clusters.{
  Pushed, alloc_push, truncate_clusters, alloc_push-unlinked, truncate_clusters-frees_all,
}
use mankoros.VfsPath
use mankoros.VfsPath.{VfsPath, from_string, to_string}
use mankoros.VfsPath.Text.{from_string-to_string}
use mankoros.Timer.{TimeSpec}

-- The clusters 2 and 3 are a chain, and 4 and 5 are free.
abbrev table : List ℕ
table = 0x0fff_fff8 ∷ 0x0fff_ffff ∷ 3 ∷ 0x0fff_ffff ∷ 0 ∷ 0 ∷ []

abbrev layout : Layout
layout = record { data_begin_sct = 2080; cluster_size_sct = 8; log_cls_size_sct = 3 }

alloc_next_correct_example :
    ((Fat.free_cluster_count table ≡ 0) × (Fat.alloc_next table 3 ≡ panic))
    ⊎ Returns (Linked table (2 ∷ []) 3) (Fat.alloc_next table 3)
unfolding Fat.next Fat.get_fat
alloc_next_correct_example =
    alloc_next_correct table (2 ∷ []) 3 (refl, omega arith, refl) (λ e. ground arith) (omega arith)

sector_correct_example : Returns (IsSectorOf layout table 2 7) (Fat.first_sector layout 2)
sector_correct_example =
    sector_correct layout table 2 7 refl (omega arith) (omega arith) (omega arith) (omega arith)
      (omega arith)

alloc_push-unlinked_example :
    (alloc_push 2 (2 ∷ 3 ∷ []) table ≡ panic)
    ⊎ Returns (Pushed 2 (2 ∷ 3 ∷ []) (2 ∷ 3 ∷ [])) (alloc_push 2 (2 ∷ 3 ∷ []) table)
unfolding Fat.next Fat.get_fat
alloc_push-unlinked_example =
    alloc_push-unlinked 2 (2 ∷ 3 ∷ []) table (2 ∷ 3 ∷ []) (refl, omega arith, refl)

truncate_clusters-frees_all_example :
    (truncate_clusters layout 100 (2 ∷ 3 ∷ []) table ≡ panic)
    ⊎ Returns (λ t. t.0 ≡ []) (truncate_clusters layout 100 (2 ∷ 3 ∷ []) table)
truncate_clusters-frees_all_example =
    truncate_clusters-frees_all layout 100 2 (3 ∷ []) table (omega arith) (omega arith)

abbrev half : TimeSpec
half = record { sec = 1; nsec = 600000000 }

-- "/a/bc"
abbrev a_path : VfsPath
a_path = record {
  is_absolute = true;
  is_current = false;
  components = (97 ∷ []) ∷ (98 ∷ 99 ∷ []) ∷ [];
}

from_string-to_string_example :
    from_string (to_string a_path)
    ≡ record a_path { is_current = VfsPath.is_empty a_path.components }
unfolding VfsPath.same
from_string-to_string_example =
    from_string-to_string a_path
      ((refl, refl, refl, (refl, tt)), ((refl, refl, refl, (refl, (refl, tt))), tt))

-- "./../a"
