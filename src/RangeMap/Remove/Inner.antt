-- ===== src/RangeMap/Remove/Inner.antt =====
-- The third part of `remove`: the segments that start in the range.
use mankoros.Base.{
  ℕ, zero, suc, ◌&&◌, ◌≤◌, ◌<◌, ◌≡◌, refl, ap, none, some, [], ◌∷◌, ◌++◌, leb, ltb, arith, inl, inr,
  ◌⊎◌, Bool-cases, Returns, Returns-of, Returns-map, length, length-append,
}
use mankoros.BTreeMap
use mankoros.RangeMap.Defs.{Node, RangeMap, remove_inner}
use mankoros.RangeMap.View.{
  view-append, IsOrdered, IsValid, IsWithin, IsOrdered-weaken, IsOrdered-append, view_before,
  view_after,
}
use mankoros.RangeMap.Parts.{remove_at}
use mankoros.RangeMap.Lookup.{view-parts}
use mankoros.RangeMap.Clear.{
  IsClear, IsClearOr-append, IsClearOr-parts, Moved, Moved-refl, Moved-trans,
}

module _ {ℓ} {V : Type ℓ} where
  -- every segment ends by `start` or starts at `end` or later
  abbrev pub IsOutside : ℕ → ℕ → RangeMap V → Type 0
  IsOutside start end [] = Unit {0}
  IsOutside start end ((a, node) ∷ m) = ((node.end ≤ start) ⊎ (end ≤ a)) × IsOutside start end m

  record Picked (lo start end : ℕ) (m : RangeMap V) : Type ℓ where
    pre : RangeMap V
    at : ℕ
    node : Node V
    post : RangeMap V
    whole : m ≡ pre ++ (at, node) ∷ post
    pre_within : IsWithin lo pre at
    nonempty : at < node.end
    post_ordered : IsOrdered node.end post
    from : start ≤ at
    before : at < end
    next : BTreeMap.first_between start end m ≡ some (at, node)

  pick :
      (lo start end : ℕ) (m : RangeMap V)
      → IsOrdered lo m
      → IsClear start m
      → (IsOutside start end m × (BTreeMap.first_between start end m ≡ none))
        ⊎ Picked lo start end m
  unfolding BTreeMap.first_between
  pick lo start end [] o c = inl (tt, refl)
  pick lo start end ((a, node) ∷ m) o c = elim (Bool-cases (leb start a && ltb a end)) [
    | inl in_range ↦ inr (record {
      pre = [];
      at = a;
      node = node;
      post = m;
      whole = refl;
      pre_within = o.0;
      nonempty = o.1;
      post_ordered = o.2;
      from = ground arith;
      before = ground arith;
      next = rw in_range refl;
    })
    | inr outside ↦ elim (pick node.end start end m o.2 c.1) [
      | inl (rest, e) ↦ inl (
        (
          elim c.0 [
            | inl short ↦ inl short
            | inr (inl late) ↦ inr (ground arith)
            | inr (inr never) ↦ absurd never
          ],
          rest,
        ),
        rw outside e,
      )
      | inr p ↦ inr (record {
        pre = (a, node) ∷ p.pre;
        at = p.at;
        node = p.node;
        post = p.post;
        whole = ap (◌∷◌ (a, node)) p.whole;
        pre_within = (o.0, o.1, p.pre_within);
        nonempty = p.nonempty;
        post_ordered = p.post_ordered;
        from = p.from;
        before = p.before;
        next = rw outside p.next;
      })
    ]
  ]

module _ {ℓ} {V : Type ℓ} {B : Type 0} (den : V → ℕ → ℕ → B) where
  pub record InnerDone (start end : ℕ) (s t : RangeMap V × RangeMap V) : Type ℓ where
    pub valid : IsValid t.0
    pub outside : IsOutside start end t.0
    pub moved : Moved den start end s t

  -- a segment that lies in the range moves to the log
  move_one :
      (m log : RangeMap V) (start end : ℕ) (p : Picked 0 start end m)
      → p.node.end ≤ end
      → Moved den start end (m, log) (p.pre ++ p.post, (p.at, p.node) ∷ log)
  move_one m log start end p h = record {
    kept = λ k. ground (
      arith,
      p.whole,
      view-parts den p.pre p.post p.at p.node k,
      view-append den p.pre p.post k,
      view_after den 0 p.at p.pre k p.pre_within,
      view_before den _ p.post k p.post_ordered,
    );
    map_outside = λ k out. ground (
      arith,
      p.whole,
      p.from,
      p.before,
      view-parts den p.pre p.post p.at p.node k,
      view-append den p.pre p.post k,
    );
    log_outside = λ k out. ground (arith, p.from, p.before);
    filled = λ h. (ground arith, h);
  }

  pub inner_correct :
      (fuel : ℕ) (m log : RangeMap V) (start end : ℕ)
      → length m < fuel
      → IsValid m
      → IsClear start m
      → IsClear end m
      → Returns (InnerDone start end (m, log)) (remove_inner fuel (m, log) start end)
  unfolding remove_inner
  inner_correct zero m log start end f v c d = absurd (omega arith)
  inner_correct (suc fuel) m log start end f v c d = elim (pick 0 start end m v c) [
    | inl (outside, e) ↦
        Returns-of {a = (m, log)} (ground (arith, e))
          (record { valid = v; outside = outside; moved = Moved-refl den start end (m, log) })
    | inr p ↦
        let rest = p.pre ++ p.post in
        let log' : RangeMap V = (p.at, p.node) ∷ log in
        let c' = IsClearOr-parts _ start p.pre _ (rw p.whole at c) in
        let d' = IsClearOr-parts _ end p.pre _ (rw p.whole at d) in
        let inside : p.node.end ≤ end = elim d'.1.0 [
          | inl short ↦ short
          | inr (inl late) ↦ absurd (omega (arith, p.before))
          | inr (inr never) ↦ absurd never
        ] in
        let shorter : length rest < fuel = omega (
          arith,
          ap length p.whole,
          length-append p.pre ((p.at, p.node) ∷ p.post),
          length-append p.pre p.post,
        ) in
        let valid =
          IsOrdered-append 0 p.at p.pre p.post p.pre_within
            (IsOrdered-weaken _ p.at p.post (omega (arith, p.nonempty)) p.post_ordered) in
        let ih =
          inner_correct fuel rest log' start end shorter valid
            (IsClearOr-append _ start p.pre p.post c'.0 c'.1.1)
            (IsClearOr-append _ end p.pre p.post d'.0 d'.1.1) in
        let step : remove_inner (suc fuel) (m, log) start end
            ≡ remove_inner fuel (rest, log') start end =
          ground (arith, p.next, p.whole, remove_at 0 p.at p.pre p.post p.at p.node p.pre_within) in
        rw step (
          Returns-map ih λ t done. record {
            valid = done.valid;
            outside = done.outside;
            moved =
                Moved-trans den start end (m, log) (rest, log') t
                  (move_one m log start end p inside) done.moved;
          })
  ]
