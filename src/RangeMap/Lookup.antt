-- ===== src/RangeMap/Lookup.antt =====
-- The queries of range_map.rs against the view: get, range_contain, range_match, range_is_free.
use mankoros.Base.{
  ℕ, suc, ◌&&◌, ◌≤◌, ◌<◌, ◌≡◌, Option, none, some, ◌∷◌, ◌++◌, leb, ltb, if◌then◌else◌, max, arith,
  inl, inr,
}
use mankoros.RangeMap.Defs.{Node, RangeMap, get}
use mankoros.RangeMap.View.{or_else, view, view-append, IsValid, view_before, view_after}
use mankoros.RangeMap.Parts.{Found, find}

module _ {ℓ κ} {V : Type ℓ} {B : Type κ} (den : V → ℕ → ℕ → B) where
  -- the segment itself, between two parts that do not cover its addresses
  pub view-parts :
      (pre post : RangeMap V) (a : ℕ) (node : Node V) (k : ℕ)
      → view den (pre ++ (a, node) ∷ post) k
        ≡ or_else
            (view den pre k)
            (if leb a k && ltb k node.end then some (den node.value a k) else view den post k)
  view-parts pre post a node k = view-append den pre ((a, node) ∷ post) k

  -- the address that the segment was looked for by: it is covered by that segment or by none
  pub Found-view :
      (lo k : ℕ) (m : RangeMap V) (f : Found lo (suc k) m)
      → view den m k ≡ (if ltb k f.node.end then some (den f.node.value f.start k) else none)
  Found-view lo k m f = ground (
    arith,
    f.whole,
    view-parts f.pre f.post f.start f.node k,
    view_after den lo f.start f.pre k f.pre_within,
    view_before den (max f.node.end (suc k)) f.post k f.post_ordered,
    f.below,
  )

  -- from the start of the segment that was found on
  pub Found-view_from :
      (lo b k : ℕ) (m : RangeMap V) (f : Found lo b m)
      → f.start ≤ k
      → view den m k
        ≡ (if ltb k f.node.end then some (den f.node.value f.start k) else view den f.post k)
  Found-view_from lo b k m f h = ground (
    arith,
    f.whole,
    view-parts f.pre f.post f.start f.node k,
    view_after den lo f.start f.pre k f.pre_within,
  )

  abbrev pub shown : ℕ → Option (ℕ × ℕ × V) → Option B
  shown k none = none
  shown k (some (start, end, value)) = some (den value start k)

  get-view : (m : RangeMap V) (key : ℕ) → IsValid m → shown key (get m key) ≡ view den m key
  unfolding get
  get-view m key v = elim (find 0 (suc key) m v) [
    | inl (rest, e) ↦ ground (arith, e, view_before den (max 0 (suc key)) m key rest)
    | inr f ↦ ground (arith, f.last, Found-view 0 key m f)
  ]

  -- the range that a lookup returns holds the key
  abbrev pub Holds : ℕ → Option (ℕ × ℕ × V) → Type 0
  Holds k none = Unit {0}
  Holds k (some (start, end, value)) = (start ≤ k) × (k < end)

  get-Holds : (m : RangeMap V) (key : ℕ) → IsValid m → Holds key (get m key)
  unfolding get
  get-Holds m key v = elim (find 0 (suc key) m v) [
    | inl (rest, e) ↦ rw (e, Holds) tt
    | inr f ↦ rw (f.last, Holds) (ground (arith, f.below))
  ]

  -- On a well-formed map `get` returns a segment exactly where one covers the key, its value is the
  -- one that covers it, and its range holds the key.
  pub get_correct :
      (m : RangeMap V) (key : ℕ)
      → IsValid m
      → (shown key (get m key) ≡ view den m key) × Holds key (get m key)
  get_correct m key v = (get-view m key v, get-Holds m key v)
