-- ===== src/RangeMap/Remove/Left.antt =====
-- The first part of `remove`: a segment that starts before the range and reaches into it.
use mankoros.Base.{
  ℕ, ◌≤◌, ◌<◌, ◌∷◌, ◌++◌, ltb, max, arith, inl, inr, Bool-cases, Returns, Returns-of, Returns-inv,
}
use mankoros.RangeMap.Defs.{Node, RangeMap, Split, remove_left}
use mankoros.RangeMap.View.{
  IsOrdered, IsValid, IsOrdered-weaken, IsOrdered-append, view_before, view_after,
}
use mankoros.RangeMap.Parts.{Found, find, try_insert_behind, put-append}
use mankoros.RangeMap.Lookup.{view-parts}
use mankoros.RangeMap.Clear.{
  IsClearOr, IsClear, IsClearOr-append, IsClearOr-parts, IsClearOr-before, IsClearOr-after, Moved,
  Moved-refl, Halves, SplitsRight,
}

module _ {ℓ} {V : Type ℓ} (Good : ℕ → ℕ → V → Type 0) where
  pub Good_at :
      (p : ℕ) (m : RangeMap V) (f : Found 0 p m)
      → IsClearOr Good p m
      → p < f.node.end
      → Good f.start f.node.end f.node.value
  Good_at p m f good h = elim ((IsClearOr-parts Good p f.pre _ (rw f.whole at good)).1.0) [
    | inl short ↦ absurd (omega arith)
    | inr (inl late) ↦ absurd (omega (arith, f.below))
    | inr (inr g) ↦ g
  ]

module _ {ℓ} {V : Type ℓ} where
  -- the segment that was found does not cross the address
  pub clear_short : (p : ℕ) (m : RangeMap V) (f : Found 0 p m) → f.node.end ≤ p → IsClear p m
  clear_short p m f h = rw f.whole (
      IsClearOr-append _ p f.pre _
        (IsClearOr-before _ 0 f.start p f.pre f.pre_within (omega (arith, f.below)))
        (inl h, IsClearOr-after _ _ p f.post f.post_ordered (omega arith)))

module _ {ℓ} {V : Type ℓ} {B : Type 0} (den : V → ℕ → ℕ → B) (Good : ℕ → ℕ → V → Type 0) where
  -- what the first part leaves: nothing crosses `start`
  pub record LeftDone (start end : ℕ) (s t : RangeMap V × RangeMap V) : Type ℓ where
    pub valid : IsValid t.0
    pub clear : IsClear start t.0
    pub good : IsClearOr Good end t.0
    pub moved : Moved den start end s t

  -- the segment that crosses `start` does not reach past `end`
  left_tail :
      (m log : RangeMap V) (start end : ℕ) (f : Found 0 start m) (v_l v_m : V)
      → start < end
      → start < f.node.end
      → f.node.end ≤ end
      → IsClearOr Good end m
      → Halves den Good f.node.value start f.start f.node.end v_l v_m
      → LeftDone start end
          (m, log)
          (
            f.pre ++ (f.start, record { end = start; value = v_l }) ∷ f.post,
            (start, record { end = f.node.end; value = v_m }) ∷ log,
          )
  left_tail m log start end f v_l v_m h cross short good halves = record {
    valid = IsOrdered-append 0 f.start f.pre _ f.pre_within (omega arith, f.below, post);
    clear =
        IsClearOr-append _ start f.pre _
          (IsClearOr-before _ 0 f.start start f.pre f.pre_within (omega (arith, f.below)))
          (inl (omega arith), IsClearOr-after _ _ start f.post post (omega arith));
    good = IsClearOr-append _ end f.pre _ good_parts.0 (inl (omega arith), good_parts.1.1);
    moved = record {
      kept = λ k. ground (
        arith,
        f.whole,
        f.below,
        view-parts den f.pre f.post f.start f.node k,
        view-parts den f.pre f.post f.start left k,
        view_after den 0 f.start f.pre k f.pre_within,
        view_before den _ f.post k f.post_ordered,
        halves.left_same k,
        halves.right_same k,
      );
      map_outside = λ k out. ground (
        arith,
        f.whole,
        f.below,
        view-parts den f.pre f.post f.start f.node k,
        view-parts den f.pre f.post f.start left k,
        halves.left_same k,
      );
      log_outside = λ k out. ground arith;
      filled = λ g. (omega arith, g);
    };
  }
    where
      left : Node V
      left = record { end = start; value = v_l }

      good_parts : IsClearOr Good end f.pre × IsClearOr Good end ((f.start, f.node) ∷ f.post)
      good_parts = IsClearOr-parts Good end f.pre _ (rw f.whole at good)

      post : IsOrdered start f.post
      post = IsOrdered-weaken _ start f.post (omega arith) f.post_ordered

  -- the segment that crosses `start` crosses `end` too
  left_middle :
      (m log : RangeMap V) (start end : ℕ) (f : Found 0 start m) (v_l v_m v_m' v_r : V)
      → start < end
      → end < f.node.end
      → IsClearOr Good end m
      → Halves den Good f.node.value start f.start f.node.end v_l v_m
      → Halves den Good v_m end start f.node.end v_m' v_r
      → LeftDone start end
          (m, log)
          (
            f.pre
                ++ (f.start, record { end = start; value = v_l })
                  ∷ (end, record { end = f.node.end; value = v_r })
                  ∷ f.post,
            (start, record { end = end; value = v_m' }) ∷ log,
          )
  left_middle m log start end f v_l v_m v_m' v_r h long good halves halves' = record {
    valid =
        IsOrdered-append 0 f.start f.pre _ f.pre_within
          (omega arith, f.below, (omega arith, long, post));
    clear =
        IsClearOr-append _ start f.pre _
          (IsClearOr-before _ 0 f.start start f.pre f.pre_within (omega (arith, f.below)))
          (
            inl (omega arith),
            (inr (inl (omega arith)), IsClearOr-after _ _ start f.post post (omega arith)),
          );
    good =
        IsClearOr-append _ end f.pre _ good_parts.0
          (inl (omega arith), (inr (inl (omega arith)), good_parts.1.1));
    moved = record {
      kept = λ k. ground (
        arith,
        f.whole,
        f.below,
        view-parts den f.pre f.post f.start f.node k,
        view-parts den f.pre ((end, right) ∷ f.post) f.start left k,
        view_after den 0 f.start f.pre k f.pre_within,
        view_before den _ f.post k f.post_ordered,
        halves.left_same k,
        halves.right_same k,
        halves'.left_same k,
        halves'.right_same k,
      );
      map_outside = λ k out. ground (
        arith,
        f.whole,
        f.below,
        view-parts den f.pre f.post f.start f.node k,
        view-parts den f.pre ((end, right) ∷ f.post) f.start left k,
        halves.left_same k,
        halves.right_same k,
        halves'.right_same k,
      );
      log_outside = λ k out. ground arith;
      filled = λ g. (omega arith, g);
    };
  }
    where
      left : Node V
      left = record { end = start; value = v_l }

      right : Node V
      right = record { end = f.node.end; value = v_r }

      good_parts : IsClearOr Good end f.pre × IsClearOr Good end ((f.start, f.node) ∷ f.post)
      good_parts = IsClearOr-parts Good end f.pre _ (rw f.whole at good)

      post : IsOrdered f.node.end f.post
      post = IsOrdered-weaken _ f.node.end f.post (omega arith) f.post_ordered

  pub left_correct :
      (split_r : Split V)
      → SplitsRight den Good split_r
      → (m log : RangeMap V) (start end : ℕ) → IsValid m
      → start < end
      → IsClearOr Good start m
      → IsClearOr Good end m
      → Returns (LeftDone start end (m, log)) (remove_left split_r (m, log) start end)
  unfolding remove_left
  left_correct split_r splits m log start end v h good_s good_e = elim (find 0 start m v) [
    | inl (rest, b) ↦ Returns-of {a = (m, log)} (ground (arith, b)) (record {
      valid = v;
      clear = IsClearOr-after _ _ start m rest (omega arith);
      good = good_e;
      moved = Moved-refl den start end (m, log);
    })
    | inr f ↦ elim (Bool-cases (ltb start f.node.end)) [
      | inr short ↦ Returns-of {a = (m, log)} (ground (arith, f.last)) (record {
        valid = v;
        clear = clear_short start m f (ground arith);
        good = good_e;
        moved = Moved-refl den start end (m, log);
      })
      | inl cross ↦
          let crosses : start < f.node.end = ground arith in
          let ((v_l, v_m), e, halves) = Returns-inv (
            splits f.node.value start f.start f.node.end (Good_at Good start m f good_s crosses)
              f.below crosses) in
          elim (Bool-cases (ltb end f.node.end)) [
            | inr tail ↦
                let ends : f.node.end ≤ end = ground arith in
                Returns-of
                  (ground (
                    arith,
                    f.last,
                    f.whole,
                    e,
                    put-append 0 f.start f.pre f.post f.start f.node
                        (record { end = start; value = v_l }) f.pre_within,
                  ))
                  (left_tail m log start end f v_l v_m h crosses ends good_e halves)
            | inl middle ↦
                let long : end < f.node.end = ground arith in
                let ((v_m', v_r), e', halves') =
                  Returns-inv (splits v_m end start f.node.end halves.right_good h long) in
                Returns-of
                  (ground (
                    arith,
                    f.last,
                    f.whole,
                    e,
                    e',
                    put-append 0 f.start f.pre f.post f.start f.node
                        (record { end = start; value = v_l }) f.pre_within,
                    try_insert_behind 0 (max f.node.end start) f.start end f.pre f.post
                        (record { end = start; value = v_l })
                        (record { end = f.node.end; value = v_r }) f.pre_within f.below
                        (omega arith) f.post_ordered,
                  ))
                  (left_middle m log start end f v_l v_m v_m' v_r h long good_e halves halves')
          ]
    ]
  ]
