-- ===== src/RangeMap/Free.antt =====
-- range_is_free and find_free_range.
use mankoros.Base.{
  ℕ, true, false, ◌≤◌, ◌<◌, ◌≡◌, ◌≢◌, refl, none, some, [], ◌∷◌, ◌++◌, ltb, max, arith, ◌⊎◌, inl,
  inr, ok, Bool-cases,
}
use mankoros.BTreeMap
use mankoros.RangeMap.Defs.{Node, RangeMap, range_is_free}
use mankoros.RangeMap.View.{view, IsOrdered, IsValid, IsWithin, view_before, le-IsWithin}
use mankoros.RangeMap.Parts.{Found, find}
use mankoros.RangeMap.Lookup.{Found-view_from}

module _ {ℓ} {V : Type ℓ} where
  pub first_between-append :
      (lo hi a b : ℕ) (m n : RangeMap V)
      → IsWithin lo m hi
      → hi ≤ a
      → BTreeMap.first_between a b (m ++ n) ≡ BTreeMap.first_between a b n
  unfolding BTreeMap.first_between
  first_between-append lo hi a b [] n w h = refl
  first_between-append lo hi a b ((s, node) ∷ m) n w h =
      ground (arith, le-IsWithin node.end hi m w.2, first_between-append node.end hi a b m n w.2 h)

  first_between_past :
      (lo a b : ℕ) (m : RangeMap V) → IsOrdered lo m → b ≤ lo → BTreeMap.first_between a b m ≡ none
  unfolding BTreeMap.first_between
  first_between_past lo a b [] o h = refl
  first_between_past lo a b ((s, node) ∷ m) o h =
      ground (arith, first_between_past node.end a b m o.2)

  -- Where every segment starts at `a` or later, the first between is the first of all, if it starts
  -- before `b`.
  pub data First (a b lo : ℕ) (m : RangeMap V) : Type ℓ where
    absent : IsOrdered (max lo b) m → BTreeMap.first_between a b m ≡ none → First a b lo m
    present :
        (s : ℕ) (node : Node V) (rest : RangeMap V)
        → m ≡ (s, node) ∷ rest
        → lo ≤ s
        → s < b
        → s < node.end
        → IsOrdered node.end rest
        → BTreeMap.first_between a b m ≡ some (s, node)
        → First a b lo m

  pub first : (a b lo : ℕ) (m : RangeMap V) → a ≤ lo → IsOrdered lo m → First a b lo m
  unfolding BTreeMap.first_between
  first a b lo [] h o = absent tt refl
  first a b lo ((s, node) ∷ m) h o = elim (Bool-cases (ltb s b)) [
    | inl short ↦ present s node m refl o.0 (ground arith) o.1 o.2 (ground arith)
    | inr long ↦
        absent (ground arith, o.1, o.2) (ground (arith, first_between_past node.end a b m o.2))
  ]

  -- past the segment that was found, which starts before `a`
  pub Found-first_between :
      (lo a b : ℕ) (m : RangeMap V) (f : Found lo a m)
      → BTreeMap.first_between a b m ≡ BTreeMap.first_between a b f.post
  unfolding BTreeMap.first_between
  Found-first_between lo a b m f = ground (
    arith,
    f.whole,
    f.below,
    first_between-append lo f.start a b f.pre ((f.start, f.node) ∷ f.post) f.pre_within
        (omega (arith, f.below)),
  )

module _ {ℓ κ} {V : Type ℓ} {B : Type κ} (den : V → ℕ → ℕ → B) where
  -- every address of the range is uncovered
  abbrev pub IsFree : RangeMap V → ℕ → ℕ → Type κ
  IsFree m start end = (k : ℕ) → start ≤ k → k < end → view den m k ≡ none

  -- the answer, with an address that shows it where it is no
  abbrev pub Answer : RangeMap V → ℕ → ℕ → Type κ
  Answer m start end =
      ((range_is_free m start end ≡ ok true) × IsFree m start end)
      ⊎ ((k : ℕ) × (range_is_free m start end ≡ ok false)
          × (start ≤ k)
          × (k < end)
          × (view den m k ≢ none))

  -- On a well-formed map and a non-empty range `range_is_free` does not panic, and answers yes
  -- exactly where no address of the range is covered.
  pub range_is_free_correct :
      (m : RangeMap V) (start end : ℕ) → IsValid m → start < end → Answer m start end
  unfolding range_is_free
  range_is_free_correct m start end v h = elim (find 0 start m v) [
    | inl (rest, e) ↦ elim (first start end (max 0 start) m (omega arith) rest) [
      | absent o e' ↦ inl (ground (arith, e, e'), λ k p q. view_before den _ m k o (omega arith))
      | present s node r whole p q ne o e' ↦
          inr (s, ground (arith, e, e'), omega arith, q, ground (arith, whole))
    ]
    | inr f ↦
        let skip = Found-first_between 0 start end m f in
        elim (Bool-cases (ltb start f.node.end)) [
          | inl inside ↦ inr (
            start,
            ground (arith, f.last),
            omega arith,
            h,
            ground (arith, Found-view_from den 0 start start m f (omega (arith, f.below))),
          )
          | inr outside ↦ elim (first start end _ f.post (omega arith) f.post_ordered) [
            | absent o e' ↦ inl (
              ground (arith, f.last, skip, e'),
              λ k p q. ground (
                arith,
                Found-view_from den 0 start k m f (omega (arith, f.below)),
                view_before den _ f.post k o (omega arith),
              ),
            )
            | present s node r whole p q ne o e' ↦ inr (
              s,
              ground (arith, f.last, skip, e'),
              omega arith,
              q,
              ground (arith, whole, Found-view_from den 0 start s m f (omega (arith, f.below))),
            )
          ]
        ]
  ]
