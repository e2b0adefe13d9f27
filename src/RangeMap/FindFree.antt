-- ===== src/RangeMap/FindFree.antt =====
-- find_free_range: what it returns is free, and it returns nothing where the last segment of the
-- window leaves no room behind it.
pub mod Total
use mankoros.Base.{
  ℕ, suc, Bool, true, false, ◌&&◌, ◌+◌, ◌≤◌, ◌<◌, ◌≡◌, ◌≢◌, refl, none, some, [], ◌∷◌, ◌++◌, leb,
  ltb, if◌then◌else◌, max, arith, inl, inr, Run, ok, panic, Run-cases, Bool-cases, Option-cases,
  ◌⊎◌,
}
use mankoros.BTreeMap
use mankoros.RangeMap.Defs.{Node, RangeMap, find_free_loop, find_free_from, find_free_range}
use mankoros.RangeMap.View.{view, IsOrdered, IsValid, IsWithin, IsOrdered-weaken, le-IsWithin}
use mankoros.RangeMap.Parts.{Found, find}
use mankoros.RangeMap.Lookup.{Found-view_from}
use mankoros.RangeMap.Free.{IsFree}

module _ {ℓ} {V : Type ℓ} where
  between-append :
      (lo hi a b : ℕ) (m n : RangeMap V)
      → IsWithin lo m hi
      → hi ≤ a
      → BTreeMap.between a b (m ++ n) ≡ BTreeMap.between a b n
  unfolding BTreeMap.between
  between-append lo hi a b [] n w h = refl
  between-append lo hi a b ((s, node) ∷ m) n w h =
      ground (arith, le-IsWithin node.end hi m w.2, between-append node.end hi a b m n w.2 h)

  Found-between :
      (lo b hi a : ℕ) (m : RangeMap V) (f : Found lo b m)
      → f.start < a
      → BTreeMap.between a hi m ≡ BTreeMap.between a hi f.post
  unfolding BTreeMap.between
  Found-between lo b hi a m f h = ground (
    arith,
    f.whole,
    between-append lo f.start a hi f.pre ((f.start, f.node) ∷ f.post) f.pre_within (omega arith),
  )

-- the function that adds a length to an address, rounded up to pages, does not go back
abbrev pub Grows : (ℕ → ℕ → Run ℕ) → Type 0
Grows offset = (a n t : ℕ) → offset a n ≡ ok t → a + n ≤ t

module _ {ℓ} {V : Type ℓ} (offset : ℕ → ℕ → Run ℕ) (grows : Grows offset) (end size : ℕ) where
  -- a segment with no room behind it ends the search
  loop-none :
      (lo a s x t xend : ℕ) (node : Node V) (pre post : RangeMap V)
      → IsOrdered lo (pre ++ (x, node) ∷ post)
      → a ≤ x
      → x < end
      → offset node.end size ≡ ok xend
      → end < xend
      → find_free_loop end size offset s (BTreeMap.between a end (pre ++ (x, node) ∷ post))
        ≢ ok (some t)
  unfolding find_free_loop BTreeMap.between
  loop-none lo a s x t xend node [] post o p q e r = ground arith
  loop-none lo a s x t xend node ((y, n) ∷ pre) post o p q e r =
      elim (Run-cases (offset n.end size)) [
        | inl (t', e') ↦ ground (
          arith,
          e',
          grows n.end size t' e',
          loop-none n.end a n.end x t xend node pre post o.2 p q e r,
          loop-none n.end a s x t xend node pre post o.2 p q e r,
        )
        | inr e' ↦ ground (arith, e', loop-none n.end a s x t xend node pre post o.2 p q e r)
      ]

module _ {ℓ} {V : Type ℓ} {B : Type 0} (den : V → ℕ → ℕ → B) (offset : ℕ → ℕ → Run ℕ)
    (grows : Grows offset) (end size : ℕ) where
  -- the loop ends behind all the segments
  loop-some :
      (lo a s t : ℕ) (m : RangeMap V)
      → IsOrdered lo m
      → s ≤ lo
      → a ≤ lo
      → find_free_loop end size offset s (BTreeMap.between a end m) ≡ ok (some t)
      → (s ≤ t) × IsFree den m t end
  unfolding find_free_loop BTreeMap.between
  loop-some lo a s t [] o p q e = (ground arith, λ k _ _. refl)
  loop-some lo a s t ((x, n) ∷ m) o p q e = elim (Bool-cases (ltb x end)) [
    | inl short ↦ elim (Run-cases (offset n.end size)) [
      | inr e' ↦ absurd (ground (arith, e'))
      | inl (t', e') ↦
          let ih =
            loop-some n.end a n.end t m o.2 (omega arith) (omega arith)
              (ground (arith, e', grows n.end size t' e')) in
          (omega (arith, ih.0), λ k u v. ground (arith, ih.0, ih.1 k u v))
    ]
    | inr long ↦
        let ih = loop-some n.end a s t m o.2 (omega arith) (omega arith) (ground arith) in
        (ih.0, λ k u v. ground (arith, ih.1 k u v))
  ]

  from-some :
      (m : RangeMap V) (start s t : ℕ)
      → find_free_from m end size offset start ≡ ok (some (s, t))
      → (find_free_loop end size offset start (BTreeMap.between start end m) ≡ ok (some s))
        × (offset s size ≡ ok t)
        × (t ≤ end)
  unfolding find_free_from
  from-some m start s t e = ground arith

  -- Where `offset` does not go back, what `find_free_range` returns for a well-formed map lies in the
  -- window, ends at `offset` of its start, is free, and so is the rest of the window behind it.
  pub find_free_range-IsFree :
      (m : RangeMap V) (start s t : ℕ)
      → IsValid m
      → find_free_range m start end size offset ≡ ok (some (s, t))
      → (start ≤ s) × (offset s size ≡ ok t) × (s + size ≤ t) × (t ≤ end) × IsFree den m s end
  unfolding find_free_range
  find_free_range-IsFree m start s t v e = elim (find 0 start m v) [
    | inl (rest, b) ↦
        let (l, size_is, fits) = from-some m start s t (ground (arith, b)) in
        let (after, free) = loop-some _ start start s m rest (omega arith) (omega arith) l in
        (after, size_is, grows s size t size_is, fits, free)
    | inr f ↦
        let start' = max start f.node.end in
        let (l, size_is, fits) = from-some m start' s t (ground (arith, f.last)) in
        let (after, free) =
          loop-some _ start' start' s f.post f.post_ordered (omega arith) (omega arith)
            (rw (Found-between 0 start end start' m f (omega (arith, f.below))) at l) in
        (
          omega arith,
          size_is,
          grows s size t size_is,
          fits,
          λ k p q.
              ground
                (arith, Found-view_from den 0 start k m f (omega (arith, f.below)), free k p q),
        )
  ]

module _ {ℓ} {V : Type ℓ} (offset : ℕ → ℕ → Run ℕ) (grows : Grows offset) where
  from-none :
      (lo start end size x xend s t : ℕ) (node : Node V) (pre post : RangeMap V)
      → IsOrdered lo (pre ++ (x, node) ∷ post)
      → start ≤ x
      → x < end
      → offset node.end size ≡ ok xend
      → end < xend
      → find_free_from (pre ++ (x, node) ∷ post) end size offset start ≢ ok (some (s, t))
  unfolding find_free_from
  from-none lo start end size x xend s t node pre post o p q e r =
      ground
        (arith, loop-none offset grows end size lo start start x s xend node pre post o p q e r)

  last_below_before :
      (lo k : ℕ) (m : RangeMap V) → IsOrdered lo m → k ≤ lo → BTreeMap.last_below k m ≡ none
  unfolding BTreeMap.last_below
  last_below_before lo k [] o h = refl
  last_below_before lo k ((a, n) ∷ m) o h = ground (arith, last_below_before n.end k m o.2)

  le-member :
      (lo x : ℕ) (node : Node V) (pre post : RangeMap V)
      → IsOrdered lo (pre ++ (x, node) ∷ post)
      → lo ≤ x
  le-member lo x node [] post o = o.0
  le-member lo x node ((y, n) ∷ pre) post o = omega (arith, le-member n.end x node pre post o.2)

  last-le-member :
      (lo k x s : ℕ) (node n : Node V) (pre post : RangeMap V)
      → IsOrdered lo (pre ++ (x, node) ∷ post)
      → k ≤ x
      → BTreeMap.last_below k (pre ++ (x, node) ∷ post) ≡ some (s, n)
      → n.end ≤ x
  unfolding BTreeMap.last_below
  last-le-member lo k x s node n [] post o h e =
      absurd (ground (arith, last_below_before node.end k post o.2 (omega arith)))
  last-le-member lo k x s node n ((y, n') ∷ pre) post o h e = ground (
    arith,
    le-member n'.end x node pre post o.2,
    last-le-member n'.end k x s node n pre post o.2 h,
  )

  -- Where `offset` does not go back, a segment of a well-formed map that starts inside the window
  -- and has no room behind it makes the search fail, however large a gap there is before that
  -- segment.
  pub find_free_range-skips_gaps :
      (pre post : RangeMap V) (x : ℕ) (node : Node V) (start end size xend s t : ℕ)
      → IsValid (pre ++ (x, node) ∷ post)
      → start ≤ x
      → x < end
      → offset node.end size ≡ ok xend
      → end < xend
      → find_free_range (pre ++ (x, node) ∷ post) start end size offset ≢ ok (some (s, t))
  unfolding find_free_range
  find_free_range-skips_gaps pre post x node start end size xend s t v p q e r =
      elim (find 0 start _ v) [
        | inl (rest, b) ↦
            ground (arith, b, from-none 0 start end size x xend s t node pre post v p q e r)
        | inr f ↦ ground (
          arith,
          f.last,
          from-none 0 (max start f.node.end) end size x xend s t node pre post v
              (omega (arith, last-le-member 0 start x f.start node f.node pre post v p f.last)) q e
              r,
        )
      ]
