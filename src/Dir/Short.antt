-- ===== src/Dir/Short.antt =====
-- The entry of 32 bytes that `create_entry` wrote: the short name, and the numbers.
use mankoros.Base.{
  ℕ, zero, suc, ◌+◌, ◌-◌, ◌%◌, ◌^◌, ◌<◌, ◌≤◌, ◌≡◌, ◌≢◌, refl, ap, ◌∙◌, true, leb, List, [], ◌∷◌,
  ◌++◌, length, All, update, arith,
}
use mankoros.Dir.Defs.{
  Atom, bytes_at, FatDentryData, lfn_needed, collect_name, put_bytes, write_std, write_lfns,
  write_entry, shown, with_ext, short_name, get_begin_cluster, get_size, get_attr,
}

-- a character that a short name shows
abbrev pub IsShown : ℕ → Type 0
IsShown c = (0 < c) × (c < 128) × (c ≢ 0x20)

shown-chars : (xs : List ℕ) (rest : List ℕ) → All IsShown xs → shown (xs ++ rest) ≡ xs ++ shown rest
shown-chars [] rest h = refl
shown-chars (x ∷ xs) rest h = let e = shown-chars xs rest h.1 in ground (arith, h.0, e)

put_bytes-below : (cs : List ℕ) (k j : ℕ) (a : Atom) → j < k → put_bytes cs k a j ≡ a j
unfolding put_bytes
put_bytes-below [] k j a h = refl
put_bytes-below (c ∷ cs) k j a h =
    let e = put_bytes-below cs (suc k) j (update a k (c % 256)) (omega arith) in ground (arith, e)

bytes_at-cong :
    (a b : Atom) (k n : ℕ) → ((j : ℕ) → k ≤ j → a j ≡ b j) → bytes_at a k n ≡ bytes_at b k n
bytes_at-cong a b k zero h = refl
bytes_at-cong a b k (suc n) h =
    rw (h k (omega arith), bytes_at-cong a b (suc k) n (λ j l. h j (omega arith))) refl

bytes_at-put_bytes :
    (cs : List ℕ) (k n : ℕ) (a : Atom)
    → All IsShown cs
    → bytes_at (put_bytes cs k a) k (length cs + n) ≡ cs ++ bytes_at a (k + length cs) n
unfolding put_bytes
bytes_at-put_bytes [] k n a h =
    let e : k + 0 ≡ k = omega arith in let z : 0 + n ≡ n = omega arith in rw (e, z) refl
bytes_at-put_bytes (c ∷ cs) k n a h =
    let e : suc (length cs) + n ≡ suc (length cs + n) = omega arith in
    let z : k + suc (length cs) ≡ suc k + length cs = omega arith in
    let again = bytes_at-put_bytes cs (suc k) n (update a k (c % 256)) h.1 in
    let first : put_bytes cs (suc k) (update a k (c % 256)) k ≡ c =
      ground (arith, put_bytes-below cs (suc k) k (update a k (c % 256)), h.0) in
    let after =
      bytes_at-cong (update a k (c % 256)) a (suc k + length cs) n (λ j l. ground arith) in
    rw (e, z, first, again, after) refl

no_lfn : (d : FatDentryData) → length d.name ≤ 8 → lfn_needed d ≡ 0
unfolding lfn_needed
no_lfn d h = ground arith

write_std-name :
    (d : FatDentryData) (a : Atom)
    → length d.name ≤ 8
    → bytes_at (write_std d a) 0 8 ≡ bytes_at (put_bytes d.name 0 a) 0 8
unfolding write_std lfn_needed
write_std-name d a h = let short : leb (length d.name) 8 ≡ true = ground arith in rw short refl

write_std-ext : (d : FatDentryData) (a : Atom) → shown (bytes_at (write_std d a) 8 3) ≡ []
unfolding write_std
write_std-ext d a = refl

put_bytes-name :
    (cs : List ℕ) (a : Atom)
    → All IsShown cs
    → length cs ≤ 8
    → bytes_at (put_bytes cs 0 a) 0 8 ≡ cs ++ bytes_at a (length cs) (8 - length cs)
put_bytes-name cs a chars h =
    let e : 8 ≡ length cs + (8 - length cs) = omega arith in
    let z : 0 + length cs ≡ length cs = omega arith in
    ap (bytes_at (put_bytes cs 0 a) 0) e
    ∙ bytes_at-put_bytes cs 0 (8 - length cs) a chars
    ∙ ap (λ k. cs ++ bytes_at a k (8 - length cs)) z

short_name-write_std :
    (d : FatDentryData) (a : Atom)
    → All IsShown d.name
    → length d.name ≤ 8
    → short_name (write_std d a) ≡ d.name ++ shown (bytes_at a (length d.name) (8 - length d.name))
unfolding short_name
short_name-write_std d a chars h =
    ap (with_ext (shown (bytes_at (write_std d a) 0 8))) (write_std-ext d a)
    ∙ ap shown (write_std-name d a h ∙ put_bytes-name d.name a chars h)
    ∙ shown-chars d.name _ chars

-- A name of up to 8 characters of 7 bits, none of them 0 or blank, is read back with what the entry
-- held behind it before: that is the name alone where the rest of those bytes were blanks and
-- zeros.
pub short_name_correct :
    (d : FatDentryData) (old : ℕ → Atom)
    → All IsShown d.name
    → length d.name ≤ 8
    → collect_name (write_entry d old)
      ≡ d.name ++ shown (bytes_at (old 0) (length d.name) (8 - length d.name))
unfolding write_entry write_lfns collect_name
short_name_correct d old chars h = rw (no_lfn d h) (short_name-write_std d (old 0) chars h)

-- The first cluster and the size, of 32 bits, come back from the entry they are written to, and so
-- do the attributes.
pub write_std_correct :
    (d : FatDentryData) (a : Atom)
    → d.begin_cluster < 2 ^ 32
    → d.size < 2 ^ 32
    → (get_begin_cluster (write_std d a) ≡ d.begin_cluster)
      × (get_size (write_std d a) ≡ d.size)
      × (get_attr (write_std d a) ≡ d.attr)
unfolding write_std get_begin_cluster get_size get_attr
write_std_correct d a c z = (omega arith, omega arith, refl)
