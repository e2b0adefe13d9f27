-- ===== src/RangeMap/Remove/Right.antt =====
-- The second part of `remove`: a segment that starts in the range and reaches past it.
use mankoros.Base.{
  ℕ, ◌≤◌, ◌<◌, ◌∷◌, ◌++◌, ltb, max, arith, inl, inr, Bool-cases, Returns, Returns-of, Returns-inv,
}
use mankoros.RangeMap.Defs.{Node, RangeMap, Split, remove_right}
use mankoros.RangeMap.View.{
  IsOrdered, IsValid, IsOrdered-weaken, IsWithin-weaken, IsOrdered-append, view_before, view_after,
}
use mankoros.RangeMap.Parts.{Found, find, try_insert_between, put-append, remove_at}
use mankoros.RangeMap.Lookup.{view-parts}
use mankoros.RangeMap.Clear.{
  IsClearOr, IsClear, IsClearOr-append, IsClearOr-parts, IsClearOr-before, IsClearOr-after, Moved,
  Moved-refl, Halves, SplitsLeft,
}
use mankoros.RangeMap.Remove.Left.{Good_at, clear_short}

module _ {ℓ} {V : Type ℓ} {B : Type 0} (den : V → ℕ → ℕ → B) (Good : ℕ → ℕ → V → Type 0) where
  -- what the second part leaves: nothing crosses `end` either
  pub record RightDone (start end : ℕ) (s t : RangeMap V × RangeMap V) : Type ℓ where
    pub valid : IsValid t.0
    pub clear_start : IsClear start t.0
    pub clear_end : IsClear end t.0
    pub moved : Moved den start end s t

  -- the segment that crosses `end` starts in the range
  right_cut :
      (m log : RangeMap V) (start end : ℕ) (f : Found 0 end m) (v_l v_r : V)
      → start < end
      → end < f.node.end
      → IsClear start m
      → Halves den Good f.node.value end f.start f.node.end v_l v_r
      → RightDone start end
          (m, log)
          (
            f.pre ++ (end, record { end = f.node.end; value = v_r }) ∷ f.post,
            (f.start, record { end = end; value = v_l }) ∷ log,
          )
  right_cut m log start end f v_l v_r h long clear halves = record {
    valid =
        IsOrdered-append 0 end f.pre _
          (IsWithin-weaken 0 f.start end f.pre (omega (arith, f.below)) f.pre_within)
          (omega arith, long, post);
    clear_start =
        IsClearOr-append _ start f.pre _ clear_parts.0 (inr (inl (omega arith)), clear_parts.1.1);
    clear_end =
        IsClearOr-append _ end f.pre _
          (IsClearOr-before _ 0 f.start end f.pre f.pre_within (omega (arith, f.below)))
          (inr (inl (omega arith)), IsClearOr-after _ _ end f.post post (omega arith));
    moved = record {
      kept = λ k. ground (
        arith,
        f.whole,
        f.below,
        view-parts den f.pre f.post f.start f.node k,
        view-parts den f.pre f.post end right k,
        view_after den 0 f.start f.pre k f.pre_within,
        view_before den _ f.post k post,
        halves.left_same k,
        halves.right_same k,
      );
      map_outside = λ k out. ground (
        arith,
        f.whole,
        f.below,
        inside,
        view-parts den f.pre f.post f.start f.node k,
        view-parts den f.pre f.post end right k,
        halves.right_same k,
      );
      log_outside = λ k out. ground (arith, inside);
      filled = λ h. (omega (arith, f.below), h);
    };
  }
    where
      right : Node V
      right = record { end = f.node.end; value = v_r }

      post : IsOrdered f.node.end f.post
      post = IsOrdered-weaken _ f.node.end f.post (omega arith) f.post_ordered

      clear_parts : IsClear start f.pre × IsClear start ((f.start, f.node) ∷ f.post)
      clear_parts = IsClearOr-parts _ start f.pre _ (rw f.whole at clear)

      inside : start ≤ f.start
      inside = elim clear_parts.1.0 [
        | inl short ↦ absurd (omega arith)
        | inr (inl late) ↦ late
        | inr (inr never) ↦ absurd never
      ]

  pub right_correct :
      (split_l : Split V)
      → SplitsLeft den Good split_l
      → (m log : RangeMap V) (start end : ℕ) → IsValid m
      → start < end
      → IsClear start m
      → IsClearOr Good end m
      → Returns (RightDone start end (m, log)) (remove_right split_l (m, log) end)
  unfolding remove_right
  right_correct split_l splits m log start end v h clear good = elim (find 0 end m v) [
    | inl (rest, b) ↦ Returns-of {a = (m, log)} (ground (arith, b)) (record {
      valid = v;
      clear_start = clear;
      clear_end = IsClearOr-after _ _ end m rest (omega arith);
      moved = Moved-refl den start end (m, log);
    })
    | inr f ↦ elim (Bool-cases (ltb end f.node.end)) [
      | inr short ↦ Returns-of {a = (m, log)} (ground (arith, f.last)) (record {
        valid = v;
        clear_start = clear;
        clear_end = clear_short end m f (ground arith);
        moved = Moved-refl den start end (m, log);
      })
      | inl cross ↦
          let crosses : end < f.node.end = ground arith in
          let ((v_r, v_l), e, halves) = Returns-inv (
            splits f.node.value end f.start f.node.end (Good_at Good end m f good crosses) f.below
              crosses) in
          let right : Node V = record { end = f.node.end; value = v_r } in
          Returns-of
            (ground (
              arith,
              f.last,
              f.whole,
              e,
              put-append 0 f.start f.pre f.post f.start f.node right f.pre_within,
              remove_at 0 f.start f.pre f.post f.start right f.pre_within,
              try_insert_between 0 f.start (max f.node.end end) f.pre f.post end right f.pre_within
                  f.post_ordered (omega (arith, f.below)) (omega arith),
            ))
            (right_cut m log start end f v_l v_r h crosses clear halves)
    ]
  ]
