-- ===== src/Dir/Defs.antt =====
-- src/fs/nfat32/dir.rs: the directory entries of 32 bytes, and the names that they hold. An entry is the
-- function from the index of a byte to the byte; a name is the list of its characters, of 7 bits.
use mankoros.Base.{
  ℕ, zero, suc, ◌+◌, ◌*◌, ◌/◌, ◌%◌, ◌^◌, Bool, not, ◌&&◌, Option, none, some, List, [], ◌∷◌, ◌++◌,
  leb, ◌==◌, if◌then◌else◌, length, get_elem?, update, Run, ok, panic,
}

abbrev pub Atom : Type 0
Atom = ℕ → ℕ

unfoldable pub is_std : Atom → Bool
is_std a = not (a 11 == 0x0f)

unfoldable pub is_lfn : Atom → Bool
is_lfn a = a 11 == 0x0f

unfoldable pub is_unused : Atom → Bool
is_unused a = a 0 == 0xe5

unfoldable pub is_end : Atom → Bool
is_end a = a 0 == 0

unfoldable pub mark_end : Atom → Atom
mark_end a = update a 0 0

-- what `delete_entry` does to each entry of the group
unfoldable pub mark_unused : Atom → Atom
mark_unused a = update a 0 0xe5

-- a number of two bytes, and of four, the low byte first
abbrev pub half_at : Atom → ℕ → ℕ
half_at a k = a k + a (k + 1) * 256

abbrev pub put_half : Atom → ℕ → ℕ → Atom
put_half a k v = update (update a k (v % 256)) (k + 1) (v / 256 % 256)

abbrev pub word_at : Atom → ℕ → ℕ
word_at a k = half_at a k + half_at a (k + 2) * 2 ^ 16

abbrev pub put_word : Atom → ℕ → ℕ → Atom
put_word a k v = put_half (put_half a k v) (k + 2) (v / 2 ^ 16)

-- the bytes from `k` on, `n` of them
abbrev pub bytes_at : Atom → ℕ → ℕ → List ℕ
bytes_at a k zero = []
bytes_at a k (suc n) = a k ∷ bytes_at a (suc k) n

abbrev pub halves_at : Atom → ℕ → ℕ → List ℕ
halves_at a k zero = []
halves_at a k (suc n) = half_at a k ∷ halves_at a (k + 2) n

unfoldable pub collect_chars : Atom → List ℕ
collect_chars a = halves_at a 1 5 ++ halves_at a 14 6 ++ halves_at a 28 2

unfoldable pub get_begin_cluster : Atom → ℕ
get_begin_cluster a = half_at a 20 * 2 ^ 16 + half_at a 26

unfoldable pub get_size : Atom → ℕ
get_size a = word_at a 28

unfoldable pub get_attr : Atom → ℕ
get_attr a = a 11

unfoldable pub change_size : Atom → ℕ → Atom
change_size a new_size = put_word a 28 new_size

abbrev pub directory : ℕ
directory = 0x10

abbrev pub archive : ℕ
archive = 0x20

-- the kinds of files that the file system has
pub data VfsFileKind : Type 0 where
  regular_file : VfsFileKind
  directory_file : VfsFileKind
  other : VfsFileKind

unfoldable pub attr_of_kind : VfsFileKind → Run ℕ
attr_of_kind regular_file = ok archive
attr_of_kind directory_file = ok directory
attr_of_kind other = panic

unfoldable pub kind_of_attr : ℕ → VfsFileKind
kind_of_attr attr = if attr / 16 % 2 == 1 then directory_file else regular_file

pub record FatDentryData : Type 0 where
  pub attr : ℕ
  pub begin_cluster : ℕ
  pub name : List ℕ
  pub size : ℕ

unfoldable pub lfn_needed : FatDentryData → ℕ
lfn_needed d = if leb (length d.name) 8 then 0 else (length d.name + 12) / 13

-- the bytes of the short name that are used
abbrev pub shown : List ℕ → List ℕ
shown [] = []
shown (c ∷ cs) = if not (c == 0x20) && not (c == 0) then c ∷ shown cs else shown cs

abbrev pub with_ext : List ℕ → List ℕ → List ℕ
with_ext name [] = name
with_ext name (c ∷ cs) = name ++ 0x2e ∷ c ∷ cs

unfoldable pub short_name : Atom → List ℕ
short_name a = with_ext (shown (bytes_at a 0 8)) (shown (bytes_at a 8 3))

-- the blocks of the long name, up to the short entry
unfoldable pub lfn_blocks : List Atom → List (List ℕ)
lfn_blocks [] = []
lfn_blocks (a ∷ atoms) =
    let rest = lfn_blocks atoms in if is_std a then [] else collect_chars a ∷ rest

-- the blocks from the last to the first
abbrev pub reversed : List (List ℕ) → List ℕ → List ℕ
reversed [] acc = acc
reversed (b ∷ bs) acc = reversed bs (b ++ acc)

-- the loop `'outer`: it ends at a 0, and leaves 0xFFFF out
abbrev pub until_zero : List ℕ → List ℕ
until_zero [] = []
until_zero (c ∷ cs) =
    let rest = until_zero cs in if c == 0 then [] else if not (c == 0xffff) then c ∷ rest else rest

-- the entries of the window, the short one the last
unfoldable pub collect_name : List Atom → List ℕ
collect_name [] = []
collect_name (a ∷ []) = short_name a
collect_name (a ∷ b ∷ atoms) = until_zero (reversed (lfn_blocks (a ∷ b ∷ atoms)) [])

abbrev pub or_zero : Option ℕ → ℕ
or_zero none = 0
or_zero (some c) = c

-- `lfn_buf` of the block `i`: 13 characters of the name, then zeros
unfoldable pub lfn_buf : List ℕ → ℕ → ℕ → ℕ
lfn_buf name i j = or_zero (get_elem? name (i * 13 + j))

-- the characters of a block from `from` on go to the byte `k` on
unfoldable pub put_chars : (ℕ → ℕ) → ℕ → ℕ → ℕ → Atom → Atom
put_chars f k from zero a = a
put_chars f k from (suc n) a = put_half (put_chars f k from n a) (k + n * 2) (f (from + n))

unfoldable pub write_lfn : List ℕ → ℕ → Atom → Atom
write_lfn name i a =
    let f = lfn_buf name i in
    let a1 = put_chars f 1 0 5 (update a 0 (i % 256 + 1)) in
    let a2 = update (update (update a1 11 0x0f) 12 0) 13 0 in
    put_chars f 28 11 2 (put_half (put_chars f 14 5 6 a2) 26 0)

-- the characters to the bytes from `k` on
unfoldable pub put_bytes : List ℕ → ℕ → Atom → Atom
put_bytes [] k a = a
put_bytes (c ∷ cs) k a = put_bytes cs (suc k) (update a k (c % 256))

abbrev pub fill : ℕ → ℕ → ℕ → Atom → Atom
fill k zero v a = a
fill k (suc n) v a = update (fill k n v a) (k + n) v

unfoldable pub write_std : FatDentryData → Atom → Atom
write_std d a =
    let a1 = if lfn_needed d == 0 then put_bytes d.name 0 a else fill 0 8 0x20 a in
    let a2 = update (update (update (fill 8 3 0x20 a1) 11 d.attr) 12 0) 13 0 in
    let a3 = put_half (put_half (put_half a2 14 0) 16 0) 18 0 in
    let a4 = put_half a3 20 (d.begin_cluster / 2 ^ 16) in
    let a5 = put_half (put_half a4 22 0) 24 0 in
    put_word (put_half a5 26 (d.begin_cluster % 2 ^ 16)) 28 d.size

-- the entries that `create_entry` writes over the ones that were there, from the block `i` on
unfoldable pub write_lfns : List ℕ → ℕ → ℕ → (ℕ → Atom) → List Atom
write_lfns name i zero old = []
write_lfns name i (suc n) old = write_lfn name i (old i) ∷ write_lfns name (suc i) n old

unfoldable pub write_entry : FatDentryData → (ℕ → Atom) → List Atom
write_entry d old = write_lfns d.name 0 (lfn_needed d) old ++ write_std d (old (lfn_needed d)) ∷ []
