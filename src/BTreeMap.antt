-- ===== src/BTreeMap.antt =====
-- What the kernel uses of `alloc::collections::BTreeMap` with `usize` keys: a map is the list of its
-- entries in the order of the keys.
use mankoros.Base.{ℕ, ◌&&◌, Option, none, some, List, [], ◌∷◌, ltb, leb, ◌==◌, if◌then◌else◌}

abbrev pub Map {ℓ} : Type ℓ → Type ℓ
Map A = List (ℕ × A)

module _ {ℓ} {A : Type ℓ} where
  -- `map.get(&k)`
  unfoldable pub get : ℕ → Map A → Option A
  get k [] = none
  get k ((j, a) ∷ m) = if j == k then some a else get k m

  -- `map.range(..k).next_back()`
  unfoldable pub last_below : ℕ → Map A → Option (ℕ × A)
  last_below k [] = none
  last_below k ((j, a) ∷ m) = elim (last_below k m) [
    | some e ↦ some e
    | none ↦ if ltb j k then some (j, a) else none
  ]

  -- `map.range(a..b).next()`
  unfoldable pub first_between : ℕ → ℕ → Map A → Option (ℕ × A)
  first_between lo hi [] = none
  first_between lo hi ((j, a) ∷ m) =
      if leb lo j && ltb j hi then some (j, a) else first_between lo hi m

  -- the entries of `map.range(a..b)`, in order
  unfoldable pub between : ℕ → ℕ → Map A → Map A
  between lo hi [] = []
  between lo hi ((j, a) ∷ m) =
      let rest = between lo hi m in if leb lo j && ltb j hi then (j, a) ∷ rest else rest

  unfoldable pub insert : ℕ → A → Map A → Map A
  insert k v [] = (k, v) ∷ []
  insert k v ((j, a) ∷ m) = if ltb k j then (k, v) ∷ (j, a) ∷ m else (j, a) ∷ insert k v m

  -- `map.try_insert(k, v)`, with `none` for an occupied key
  unfoldable pub try_insert : ℕ → A → Map A → Option (Map A)
  try_insert k v m = elim (get k m) [ some _ ↦ none | none ↦ some (insert k v m) ]

  -- a write through a mutable reference to the value at `k`
  unfoldable pub put : ℕ → A → Map A → Map A
  put k v [] = []
  put k v ((j, a) ∷ m) = if j == k then (j, v) ∷ m else (j, a) ∷ put k v m

  unfoldable pub erase : ℕ → Map A → Map A
  erase k [] = []
  erase k ((j, a) ∷ m) = if j == k then m else (j, a) ∷ erase k m

  -- `map.remove(&k)`: the value that was there, and the rest
  unfoldable pub remove : ℕ → Map A → Option (A × Map A)
  remove k m = elim (get k m) [ none ↦ none | some a ↦ some (a, erase k m) ]
