-- ===== src/RangeMap/Resize.antt =====
-- extend_back, reduce_back and force_remove_one: operations on the segment that starts at a key.
use mankoros.Base.{
  ℕ, ◌&&◌, ◌≤◌, ◌<◌, ◌≡◌, ◌≢◌, ◌++◌, refl, ap, Option, none, some, [], ◌∷◌, leb, ltb, ◌==◌,
  if◌then◌else◌, arith, inl, inr, ◌⊎◌, max, Bool-cases, Returns, Returns-of,
}
use mankoros.BTreeMap
use mankoros.RangeMap.Defs.{Node, RangeMap, range_is_free, extend_back, reduce_back}
use mankoros.RangeMap.View.{
  view, view-append, IsOrdered, IsValid, IsWithin, IsOrdered-weaken, IsOrdered-append, view_before,
  view_after,
}
use mankoros.RangeMap.Parts.{put-append, erase-append}
use mankoros.RangeMap.Lookup.{view-parts}
use mankoros.RangeMap.Free.{range_is_free_correct}

module _ {ℓ} {V : Type ℓ} where
  -- the segment that starts at `k`, between two parts
  pub record Keyed (lo k : ℕ) (node : Node V) (m : RangeMap V) : Type ℓ where
    pub pre : RangeMap V
    pub post : RangeMap V
    pub whole : m ≡ pre ++ (k, node) ∷ post
    pub pre_within : IsWithin lo pre k
    pub nonempty : k < node.end
    pub post_ordered : IsOrdered node.end post

  pub locate :
      (lo k : ℕ) (node : Node V) (m : RangeMap V)
      → IsOrdered lo m
      → BTreeMap.get k m ≡ some node
      → Keyed lo k node m
  unfolding BTreeMap.get
  locate lo k node [] o e = absurd (cc)
  locate lo k node ((a, u) ∷ m) o e = elim (Bool-cases (a == k)) [
    | inl same ↦
        let at : k ≡ a = ground arith in
        let it : node ≡ u = ground arith in
        record {
          pre = [];
          post = m;
          whole = ground arith;
          pre_within = omega arith;
          nonempty = ground arith;
          post_ordered = rw it o.2;
        }
    | inr other ↦
        let p = locate u.end k node m o.2 (ground arith) in
        record {
          pre = (a, u) ∷ p.pre;
          post = p.post;
          whole = ap (◌∷◌ (a, u)) p.whole;
          pre_within = (o.0, o.1, p.pre_within);
          nonempty = p.nonempty;
          post_ordered = p.post_ordered;
        }
  ]

module _ {ℓ} {V : Type ℓ} {B : Type 0} (den : V → ℕ → ℕ → B) where
  IsFree-IsOrdered :
      (lo hi : ℕ) (m : RangeMap V)
      → IsOrdered lo m
      → ((k : ℕ) → lo ≤ k → k < hi → view den m k ≡ none)
      → IsOrdered (max lo hi) m
  IsFree-IsOrdered lo hi [] o free = tt
  IsFree-IsOrdered lo hi ((a, node) ∷ m) o free = elim (Bool-cases (ltb a hi)) [
    | inl early ↦ absurd (ground (arith, free a))
    | inr late ↦ (ground arith, o.1, o.2)
  ]

  -- `extend_back` refuses an end that does not grow the segment or a covered address in between
  abbrev pub Extended : RangeMap V → ℕ → Node V → ℕ → Option (RangeMap V) → Type 0
  Extended m start node new_end none =
      (new_end ≤ node.end) ⊎ ((k : ℕ) × (node.end ≤ k) × (k < new_end) × (view den m k ≢ none))
  Extended m start node new_end (some m') =
      IsValid m'
      × ((k : ℕ) → node.end ≤ k → k < new_end → view den m k ≡ none)
      × ((k : ℕ)
          → view den m' k ≡ (
              if leb node.end k && ltb k new_end
              then some (den node.value start k)
              else view den m k))

  -- For a segment of a well-formed map `extend_back` does not panic: it refuses, with a reason, or
  -- gives the segment exactly the addresses up to the new end and keeps the map well formed.
  pub extend_back_correct :
      (m : RangeMap V) (start new_end : ℕ) (node : Node V)
      → IsValid m
      → BTreeMap.get start m ≡ some node
      → Returns (Extended m start node new_end) (extend_back m start new_end)
  unfolding extend_back
  extend_back_correct m start new_end node v e = elim (Bool-cases (leb new_end node.end)) [
    | inl no_growth ↦
        Returns-of {a = none} (unfold range_is_free in ground (arith, e)) (inl (ground arith))
    | inr growth ↦
        let longer : node.end < new_end = ground arith in
        elim (range_is_free_correct den m node.end new_end v longer) [
          | inr (k, no_room, p, q, covered) ↦
              Returns-of {a = none} (ground (arith, e, no_room)) (inr (k, p, q, covered))
          | inl (room, free) ↦
              let p = locate 0 start node m v e in
              let grown : Node V = record node { end = new_end } in
              let post = IsFree-IsOrdered node.end new_end p.post p.post_ordered (λ k u w. ground (
                arith,
                free k u w,
                p.whole,
                p.nonempty,
                view-parts den p.pre p.post start node k,
                view_after den 0 start p.pre k p.pre_within,
              )) in
              Returns-of {a = some (p.pre ++ (start, grown) ∷ p.post)}
                (ground (
                  arith,
                  e,
                  room,
                  p.whole,
                  put-append 0 start p.pre p.post start node grown p.pre_within,
                ))
                (
                  IsOrdered-append 0 start p.pre _ p.pre_within (
                    omega arith,
                    omega (arith, p.nonempty),
                    IsOrdered-weaken _ new_end p.post (omega arith) post,
                  ),
                  free,
                  λ k. ground (
                    arith,
                    p.whole,
                    p.nonempty,
                    free k,
                    view-parts den p.pre p.post start node k,
                    view-parts den p.pre p.post start grown k,
                    view_after den 0 start p.pre k p.pre_within,
                  ),
                )
        ]
  ]

  abbrev pub Reduced : RangeMap V → ℕ → Node V → ℕ → Option (ℕ × ℕ × RangeMap V) → Type 0
  Reduced m start node new_end none = (new_end < start) ⊎ (node.end ≤ new_end)
  Reduced m start node new_end (some (lo, hi, m')) =
      (start ≤ new_end)
      × (lo ≡ new_end)
      × (hi ≡ node.end)
      × IsValid m'
      × ((k : ℕ) → view den m' k ≡ (if leb lo k && ltb k hi then none else view den m k))

  -- For a segment of a well-formed map `reduce_back` does not panic: it refuses an end outside the
  -- segment, or takes exactly the returned range out of the map and keeps it well formed.
  pub reduce_back_correct :
      (m : RangeMap V) (start new_end : ℕ) (node : Node V)
      → IsValid m
      → BTreeMap.get start m ≡ some node
      → Returns (Reduced m start node new_end) (reduce_back m start new_end)
  unfolding reduce_back
  reduce_back_correct m start new_end node v e =
      elim (Bool-cases (leb start new_end && ltb new_end node.end)) [
        | inr refused ↦ Returns-of {a = none} (ground (arith, e)) (ground arith)
        | inl accepted ↦
            let p = locate 0 start node m v e in
            let shorter : Node V = record node { end = new_end } in
            elim (Bool-cases (start == new_end)) [
              | inl all ↦
                  Returns-of {a = some (new_end, node.end, p.pre ++ p.post)}
                    (ground (
                      arith,
                      e,
                      p.whole,
                      erase-append 0 start p.pre p.post start node p.pre_within,
                    ))
                    (
                      ground arith,
                      refl,
                      refl,
                      IsOrdered-append 0 start p.pre p.post p.pre_within (
                          IsOrdered-weaken _ start p.post (omega (arith, p.nonempty))
                            p.post_ordered),
                      λ k. ground (
                        arith,
                        p.whole,
                        view-parts den p.pre p.post start node k,
                        view-append den p.pre p.post k,
                        view_after den 0 start p.pre k p.pre_within,
                        view_before den node.end p.post k p.post_ordered,
                      ),
                    )
              | inr part ↦
                  let inside : (start < new_end) × (new_end < node.end) = ground arith in
                  Returns-of {a = some (new_end, node.end, p.pre ++ (start, shorter) ∷ p.post)}
                    (ground (
                      arith,
                      e,
                      p.whole,
                      put-append 0 start p.pre p.post start node shorter p.pre_within,
                    ))
                    (
                      ground arith,
                      refl,
                      refl,
                      IsOrdered-append 0 start p.pre _ p.pre_within (
                        omega arith,
                        inside.0,
                        IsOrdered-weaken _ new_end p.post (omega arith) p.post_ordered,
                      ),
                      λ k. ground (
                        arith,
                        p.whole,
                        view-parts den p.pre p.post start node k,
                        view-parts den p.pre p.post start shorter k,
                        view_after den 0 start p.pre k p.pre_within,
                        view_before den node.end p.post k p.post_ordered,
                      ),
                    )
            ]
      ]
