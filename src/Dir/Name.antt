-- ===== src/Dir/Name.antt =====
-- The name that is read from the entries that `create_entry` wrote.
use mankoros.Base.{
  drop, length-drop, ℕ, zero, suc, ◌+◌, ◌-◌, ◌*◌, ◌/◌, ◌%◌, ◌<◌, ◌≡◌, ◌≢◌, refl, ap, ◌∙◌, true,
  false, List, [], ◌∷◌, ◌++◌, length, get_elem?, All, arith, ◌⊎◌, inl, inr,
}
use mankoros.Dir.Defs.{
  Atom, is_std, collect_chars, FatDentryData, lfn_needed, lfn_blocks, reversed, until_zero,
  collect_name, lfn_buf, or_zero, put_chars, write_lfn, write_std, write_lfns, write_entry,
}

-- a character of 7 bits that is no zero
abbrev pub IsChar : ℕ → Type 0
IsChar c = (0 < c) × (c < 128)

-- what the buffer of a block holds, as a list
abbrev pub listed : (ℕ → ℕ) → ℕ → ℕ → List ℕ
listed f from zero = []
listed f from (suc n) = f from ∷ listed f (suc from) n

put_back : (v : ℕ) → v < 128 → v % 256 + v / 256 % 256 * 256 ≡ v
put_back v h = omega arith

listed-cong :
    (f g : ℕ → ℕ) → ((j : ℕ) → f j ≡ g j) → (from n : ℕ) → listed f from n ≡ listed g from n
listed-cong f g h from zero = refl
listed-cong f g h from (suc n) = rw (h from, listed-cong f g h (suc from) n) refl

listed-shift : (f : ℕ → ℕ) (from n : ℕ) → listed f (suc from) n ≡ listed (λ j. f (suc j)) from n
listed-shift f from zero = refl
listed-shift f from (suc n) = rw (listed-shift f (suc from) n) refl

-- The characters of a block come back from the entry they are written to.
pub collect_chars-write_lfn :
    (name : List ℕ) (i : ℕ) (a : Atom)
    → ((j : ℕ) → lfn_buf name i j < 128)
    → collect_chars (write_lfn name i a) ≡ listed (lfn_buf name i) 0 13
unfolding collect_chars write_lfn put_chars
collect_chars-write_lfn name i a h =
    listed-cong (λ j. lfn_buf name i j % 256 + lfn_buf name i j / 256 % 256 * 256) (lfn_buf name i)
      (λ j. put_back (lfn_buf name i j) (h j)) 0 13

lfn-is_std : (name : List ℕ) (i : ℕ) (a : Atom) → is_std (write_lfn name i a) ≡ false
unfolding is_std write_lfn put_chars
lfn-is_std name i a = refl

pub std-is_std : (d : FatDentryData) (a : Atom) → d.attr ≢ 0x0f → is_std (write_std d a) ≡ true
unfolding is_std write_std
std-is_std d a h = ground arith

-- the character at an index, and 0 after the last
abbrev pub char_at : List ℕ → ℕ → ℕ
char_at xs j = or_zero (get_elem? xs j)

get_elem?-drop : (xs : List ℕ) (k j : ℕ) → get_elem? xs (k + j) ≡ get_elem? (drop k xs) j
get_elem?-drop xs zero j = ap (get_elem? xs) (omega arith)
get_elem?-drop [] (suc k) j = refl
get_elem?-drop (x ∷ xs) (suc k) j =
    let e : suc k + j ≡ suc (k + j) = omega arith in
    ap (get_elem? (x ∷ xs)) e ∙ get_elem?-drop xs k j

char_at-small : (xs : List ℕ) (j : ℕ) → All IsChar xs → char_at xs j < 128
char_at-small [] j h = omega arith
char_at-small (x ∷ xs) zero h = h.0.1
char_at-small (x ∷ xs) (suc j) h = char_at-small xs j h.1

All-drop : (xs : List ℕ) (k : ℕ) → All IsChar xs → All IsChar (drop k xs)
All-drop xs zero h = h
All-drop [] (suc k) h = tt
All-drop (x ∷ xs) (suc k) h = All-drop xs k h.1

-- Reading a block gives the rest of the name, where a zero or the end follows it.
until_zero-listed :
    (xs : List ℕ) (n : ℕ) (rest : List ℕ)
    → All IsChar xs
    → ((length xs < n) ⊎ ((length xs ≡ n) × (rest ≡ [])))
    → until_zero (listed (char_at xs) 0 n ++ rest) ≡ xs
until_zero-listed [] zero rest h (inl e) = absurd (omega arith)
until_zero-listed [] zero rest h (inr (e, f)) = rw f refl
until_zero-listed [] (suc n) rest h e = refl
until_zero-listed (x ∷ xs) zero rest h e = absurd (ground arith)
until_zero-listed (x ∷ xs) (suc n) rest h e =
    let again = until_zero-listed xs n rest h.1 (ground (arith, e)) in
    rw (listed-shift (char_at (x ∷ xs)) 0 n, again) (ground (arith, h.0))

collect_name-more :
    (a : Atom) (xs : List Atom) (s : Atom)
    → collect_name (a ∷ xs ++ s ∷ []) ≡ until_zero (reversed (lfn_blocks (a ∷ xs ++ s ∷ [])) [])
unfolding collect_name
collect_name-more a [] s = refl
collect_name-more a (x ∷ xs) s = refl

module _ (d : FatDentryData) (chars : All IsChar d.name) (attr : d.attr ≢ 0x0f)
    (old : ℕ → Atom) where
  buf-small : (i j : ℕ) → lfn_buf d.name i j < 128
  unfolding lfn_buf
  buf-small i j = char_at-small d.name (i * 13 + j) chars

  -- The blocks are read from the last to the first.
  last_first :
      (i n : ℕ) (s : Atom) (acc : List ℕ)
      → is_std s ≡ true
      → (rest : List ℕ) × (reversed (lfn_blocks (write_lfns d.name i (suc n) old ++ s ∷ [])) acc
          ≡ listed (lfn_buf d.name (i + n)) 0 13 ++ rest)
        × (n ≡ 0 → rest ≡ acc)
  unfolding write_lfns lfn_blocks
  last_first i zero s acc h =
      let same : i + 0 ≡ i = omega arith in
      (
        acc,
        rw
            (
              same,
              lfn-is_std d.name i (old i),
              h,
              collect_chars-write_lfn d.name i (old i) (buf-small i),
            )
            refl,
        λ e. refl,
      )
  last_first i (suc n) s acc h =
      let same : i + suc n ≡ suc i + n = omega arith in
      let (rest, e, f) =
        last_first (suc i) n s (collect_chars (write_lfn d.name i (old i)) ++ acc) h in
      (rest, rw (same, lfn-is_std d.name i (old i)) e, λ z. absurd (ground (arith, z)))

  buf-drop : (i j : ℕ) → lfn_buf d.name i j ≡ char_at (drop (i * 13) d.name) j
  unfolding lfn_buf
  buf-drop i j = ap or_zero (get_elem?-drop d.name (i * 13) j)

  -- where the last block is read to its end, the name is what stands in it
  last_block :
      (n : ℕ) (rest : List ℕ)
      → (length d.name < n * 13 + 13) ⊎ ((rest ≡ []) × (length d.name ≡ n * 13 + 13))
      → until_zero (listed (lfn_buf d.name n) 0 13 ++ rest) ≡ drop (n * 13) d.name
  last_block n rest h =
      let l = length-drop (n * 13) d.name in
      ap (λ b. until_zero (b ++ rest))
        (listed-cong (lfn_buf d.name n) (char_at (drop (n * 13) d.name)) (buf-drop n) 0 13)
      ∙ until_zero-listed (drop (n * 13) d.name) 13 rest (All-drop d.name (n * 13) chars)
          (ground (arith, h, l))

  long_name-last :
      (n : ℕ)
      → lfn_needed d ≡ suc n
      → (length d.name < n * 13 + 13) ⊎ ((n ≡ 0) × (length d.name ≡ 13))
      → collect_name (write_entry d old) ≡ drop (n * 13) d.name
  unfolding write_entry write_lfns
  long_name-last n k h =
      let s = write_std d (old (suc n)) in
      let (rest, e, f) = last_first 0 n s [] (std-is_std d (old (suc n)) attr) in
      let z : 0 + n ≡ n = omega arith in
      let last =
        last_block n rest
          (elim h [ inl less ↦ inl less | inr (first, full) ↦ inr (f first, omega arith) ]) in
      rw k (
        collect_name-more (write_lfn d.name 0 (old 0)) (write_lfns d.name 1 n old) s
        ∙ ap until_zero e
        ∙ ap (λ i. until_zero (listed (lfn_buf d.name i) 0 13 ++ rest)) z
        ∙ last)

-- Of a name of more than 8 characters of 7 bits, none of them 0, that has 13 characters or does not
-- fill its last entry, in an entry that is no long name itself by its attributes, only what stands
-- in the last of its entries is read: the name up to 13 characters, and of a longer one its end.
pub long_name_correct :
    (d : FatDentryData) (old : ℕ → Atom)
    → All IsChar d.name
    → d.attr ≢ 0x0f
    → 8 < length d.name
    → (length d.name ≡ 13) ⊎ (length d.name % 13 ≢ 0)
    → collect_name (write_entry d old) ≡ drop ((length d.name - 1) / 13 * 13) d.name
unfolding lfn_needed
long_name_correct d old chars attr long end =
    long_name-last d chars attr old ((length d.name - 1) / 13) (ground (arith, end))
      (ground (arith, end))
