-- ===== src/UserSpace/Split.antt =====
-- The closures that split an area, against what the area says of each address.
use mankoros.Base.{
  ℕ, ◌+◌, ◌-◌, ◌≤◌, ◌<◌, refl, ap, add_usize-ok, sub_usize-ok, usize_mod, Returns, returns,
  Returns-of, arith,
}
use mankoros.RangeMap.Clear.{Halves, SplitsLeft, SplitsRight}
use mankoros.UserSpace.Perm.{UserAreaPerm}
use mankoros.UserSpace.Area.{
  UserArea, UserAreaType, mmap_anonymous, mmap_private, shm_area, new_anonymous, new_private,
  split_and_make_left, split_and_make_right,
}

module _ {File Shm : Type 0} where
  -- what backs a page: nothing, an offset of a file, or a shared memory
  abbrev pub kind_at : UserAreaType File Shm → ℕ → UserAreaType File Shm
  kind_at mmap_anonymous n = mmap_anonymous
  kind_at (mmap_private file offset) n = mmap_private file (offset + n)
  kind_at (shm_area id shm) n = shm_area id shm

  -- what an area that starts at `start` says of the address `k`: its permissions and its backing
  abbrev pub area_at : UserArea File Shm → ℕ → ℕ → UserArea File Shm
  area_at area start k = record { kind = kind_at area.kind (k - start); perm = area.perm }

  abbrev area_of : UserAreaType File Shm → UserAreaPerm → UserArea File Shm
  area_of kind perm = record { kind = kind; perm = perm }

  abbrev pub CanSplitKind : UserAreaType File Shm → ℕ → Type 0
  CanSplitKind mmap_anonymous n = Unit {0}
  CanSplitKind (mmap_private file offset) n = offset + n ≤ usize_mod
  CanSplitKind (shm_area id shm) n = ⊥

  -- not a shared memory, and its file offsets fit 64 bits
  abbrev pub CanSplit : ℕ → ℕ → UserArea File Shm → Type 0
  CanSplit start end area = CanSplitKind area.kind (end - start)

  right_kind :
      (kind : UserAreaType File Shm) (perm : UserAreaPerm) (p start end : ℕ)
      → CanSplitKind kind (end - start)
      → start < p
      → p < end
      → Returns
          (λ (l, r). Halves area_at CanSplit (area_of kind perm) p start end l r)
          (split_and_make_right (area_of kind perm) p start end)
  unfolding split_and_make_right new_anonymous new_private
  right_kind mmap_anonymous perm p start end good h j = returns (record {
    left_good = tt;
    right_good = tt;
    left_same = λ k q. refl;
    right_same = λ k q. refl;
  })
  right_kind (mmap_private file offset) perm p start end good h j =
      Returns-of
        {a = (
          area_of (mmap_private file offset) perm,
          new_private perm file (offset + (p - start)),
        )}
        (ground (
          arith,
          sub_usize-ok p start (omega arith),
          add_usize-ok offset (p - start) (omega arith),
        ))
        (record {
          left_good = omega arith;
          right_good = omega arith;
          left_same = λ k q. refl;
          right_same = λ k q. ap (λ o. area_of (mmap_private file o) perm) (omega arith);
        })
  right_kind (shm_area id shm) perm p start end good h j = absurd good

  left_kind :
      (kind : UserAreaType File Shm) (perm : UserAreaPerm) (p start end : ℕ)
      → CanSplitKind kind (end - start)
      → start < p
      → p < end
      → Returns
          (λ (r, l). Halves area_at CanSplit (area_of kind perm) p start end l r)
          (split_and_make_left (area_of kind perm) p start end)
  unfolding split_and_make_left new_anonymous new_private
  left_kind mmap_anonymous perm p start end good h j = returns (record {
    left_good = tt;
    right_good = tt;
    left_same = λ k q. refl;
    right_same = λ k q. refl;
  })
  left_kind (mmap_private file offset) perm p start end good h j =
      Returns-of
        {a = (
          area_of (mmap_private file (offset + (p - start))) perm,
          new_private perm file offset,
        )}
        (ground (
          arith,
          sub_usize-ok p start (omega arith),
          add_usize-ok offset (p - start) (omega arith),
        ))
        (record {
          left_good = omega arith;
          right_good = omega arith;
          left_same = λ k q. refl;
          right_same = λ k q. ap (λ o. area_of (mmap_private file o) perm) (omega arith);
        })
  left_kind (shm_area id shm) perm p start end good h j = absurd good

  -- Both closures give the two halves of an area that can be split: each address keeps its permissions
  -- and its page of the file.
  pub split_correct :
      SplitsLeft area_at CanSplit split_and_make_left
      × SplitsRight area_at CanSplit split_and_make_right
  split_correct = (
    λ v p start end good h j. left_kind v.kind v.perm p start end good h j,
    λ v p start end good h j. right_kind v.kind v.perm p start end good h j,
  )
