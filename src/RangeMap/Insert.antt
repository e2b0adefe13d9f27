-- ===== src/RangeMap/Insert.antt =====
-- try_insert.
use mankoros.Base.{
  ℕ, ◌&&◌, ◌≤◌, ◌<◌, ◌≡◌, ◌≢◌, refl, Option, none, some, ◌∷◌, ◌++◌, leb, ltb, if◌then◌else◌, max,
  arith, inl, inr, Bool-cases, Returns, Returns-of,
}
use mankoros.BTreeMap
use mankoros.RangeMap.Defs.{Node, RangeMap, try_insert}
use mankoros.RangeMap.View.{
  view, IsOrdered, IsValid, IsWithin, IsOrdered-weaken, IsOrdered-append, view_before, view_after,
}
use mankoros.RangeMap.Parts.{find, try_insert_behind, get_before, insert_before}
use mankoros.RangeMap.Lookup.{Found-view_from, view-parts}
use mankoros.RangeMap.Free.{IsFree}

module _ {ℓ} {V : Type ℓ} {B : Type 0} (den : V → ℕ → ℕ → B) where
  -- the map with one more segment: nothing else changes
  abbrev pub view_with : RangeMap V → ℕ → ℕ → V → ℕ → Option B
  view_with m start end value k =
      if leb start k && ltb k end then some (den value start k) else view den m k

  -- what `try_insert` may return: the map with the segment, on a free range, or a refusal with an
  -- address of the range that is covered
  abbrev pub Inserted : RangeMap V → ℕ → ℕ → V → Option (RangeMap V) → Type 0
  Inserted m start end value none = (k : ℕ) × (start ≤ k) × (k < end) × (view den m k ≢ none)
  Inserted m start end value (some m') =
      IsFree den m start end
      × IsValid m'
      × ((k : ℕ) → view den m' k ≡ view_with m start end value k)

  -- a segment between two parts
  pub insert-IsValid :
      (pre post : RangeMap V) (a start end : ℕ) (u : Node V) (value : V)
      → IsWithin 0 pre a
      → a < u.end
      → u.end ≤ start
      → start < end
      → IsOrdered end post
      → IsValid (pre ++ (a, u) ∷ (start, record { end = end; value = value }) ∷ post)
  insert-IsValid pre post a start end u value w ne h lt o =
      IsOrdered-append 0 a pre _ w (omega arith, ne, (h, lt, o))

  -- On a well-formed map `try_insert` of a non-empty range does not panic: it refuses exactly a
  -- range with a covered address, and else adds the segment, changes no other address, and keeps
  -- the map well formed.
  pub try_insert_correct :
      (m : RangeMap V) (start end : ℕ) (value : V)
      → IsValid m
      → start < end
      → Returns (Inserted m start end value) (try_insert m start end value)
  unfolding try_insert BTreeMap.try_insert
  try_insert_correct m start end value v h = elim (find 0 end m v) [
    | inl (rest, b) ↦
        let fresh : Node V = record { end = end; value = value } in
        let before = IsOrdered-weaken (max 0 end) end m (omega arith) rest in
        Returns-of {a = some ((start, fresh) ∷ m)}
          (ground
            (arith, b, get_before end m start before h, insert_before end m start fresh before h))
          ((λ k p q. view_before den end m k before q), (omega arith, h, before), λ k. refl)
    | inr f ↦
        let fresh : Node V = record { end = end; value = value } in
        let post = IsOrdered-weaken _ end f.post (omega arith) f.post_ordered in
        elim (Bool-cases (ltb start f.node.end)) [
          | inl clash ↦ Returns-of {a = none} (ground (arith, f.last)) (
            max start f.start,
            omega arith,
            omega (arith, f.below),
            ground (
              arith,
              f.nonempty,
              Found-view_from den 0 end (max start f.start) m f (omega arith),
            ),
          )
          | inr room ↦
              let apart : f.node.end ≤ start = ground arith in
              let behind =
                try_insert_behind 0 end f.start start f.pre f.post f.node fresh f.pre_within
                  f.nonempty (ground arith) post h in
              Returns-of {a = some (f.pre ++ (f.start, f.node) ∷ (start, fresh) ∷ f.post)}
                (ground (arith, f.last, f.whole, behind))
                (
                  (λ k p q. ground (
                    arith,
                    Found-view_from den 0 end k m f (omega (arith, f.nonempty)),
                    view_before den end f.post k post q,
                  )),
                  insert-IsValid f.pre f.post f.start start end f.node value f.pre_within f.nonempty
                      (ground arith) h post,
                  λ k. ground (
                    arith,
                    f.whole,
                    f.nonempty,
                    view-parts den f.pre f.post f.start f.node k,
                    view-parts den f.pre ((start, fresh) ∷ f.post) f.start f.node k,
                    view_after den 0 f.start f.pre k f.pre_within,
                  ),
                )
        ]
  ]
