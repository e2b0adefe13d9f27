-- ===== src/UserSpace/Area.antt =====
-- UserArea and its parts, src/process/user_space/user_area.rs. The files and the shared memories that
-- an area refers to are of any type.
use mankoros.Base.{ℕ, Run, ok, panic, ◌>>=◌, add_usize, sub_usize}
use mankoros.UserSpace.Perm.{UserAreaPerm}

pub data UserAreaType (File Shm : Type 0) : Type 0 where
  mmap_anonymous : UserAreaType File Shm
  mmap_private : File → ℕ → UserAreaType File Shm
  shm_area : ℕ → Shm → UserAreaType File Shm

pub record UserArea (File Shm : Type 0) : Type 0 where
  pub kind : UserAreaType File Shm
  pub perm : UserAreaPerm

module _ {File Shm : Type 0} where
  unfoldable pub new_with_same_kind : UserArea File Shm → UserAreaPerm → UserArea File Shm
  new_with_same_kind old perm = record { kind = old.kind; perm = perm }

  unfoldable pub new_anonymous : UserAreaPerm → UserArea File Shm
  new_anonymous perm = record { kind = mmap_anonymous; perm = perm }

  unfoldable pub new_private : UserAreaPerm → File → ℕ → UserArea File Shm
  new_private perm file offset = record { kind = mmap_private file offset; perm = perm }

  unfoldable pub new_shm : UserAreaPerm → ℕ → Shm → UserArea File Shm
  new_shm perm id shm = record { kind = shm_area id shm; perm = perm }

  -- the area as it is left, and the area that is returned
  unfoldable pub split_and_make_left :
      UserArea File Shm → ℕ → ℕ → ℕ → Run (UserArea File Shm × UserArea File Shm)
  unfolding new_anonymous new_private
  split_and_make_left area split_at start end = elim area.kind [
    | mmap_anonymous ↦ ok (area, new_anonymous area.perm)
    | mmap_private file offset ↦ do
      n ← sub_usize split_at start
      moved ← add_usize offset n
      ok (
        record { kind = mmap_private file moved; perm = area.perm },
        new_private area.perm file offset,
      )
    | shm_area id shm ↦ panic
  ]

  unfoldable pub split_and_make_right :
      UserArea File Shm → ℕ → ℕ → ℕ → Run (UserArea File Shm × UserArea File Shm)
  unfolding new_anonymous new_private
  split_and_make_right area split_at start end = elim area.kind [
    | mmap_anonymous ↦ ok (area, new_anonymous area.perm)
    | mmap_private file offset ↦ do
      n ← sub_usize split_at start
      moved ← add_usize offset n
      ok (area, new_private area.perm file moved)
    | shm_area id shm ↦ panic
  ]
