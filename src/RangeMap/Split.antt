-- ===== src/RangeMap/Split.antt =====
-- split_at_maybe, split_at, clear and fork.
use mankoros.Base.{
  ℕ, suc, ◌<◌, ◌≡◌, ◌++◌, refl, [], ◌∷◌, leb, arith, inl, inr, max, Bool-cases, Returns, Returns-of,
  Returns-inv, Returns-map,
}
use mathlib.Core.List.{append-nil}
use mankoros.RangeMap.Defs.{
  Node, RangeMap, Split, split_at_maybe, clear_log, clear, fork_into, fork,
}
use mankoros.RangeMap.View.{
  or_else, view, view-append, IsOrdered-of_IsWithin, IsWithin-snoc, IsOrdered, IsValid, IsWithin,
  IsOrdered-append, IsOrdered-weaken, view_before,
}
use mankoros.RangeMap.Parts.{Found, find, put-append, try_insert_behind, try_insert_between}
use mankoros.RangeMap.Lookup.{view-parts}
use mankoros.RangeMap.Clear.{
  IsClearOr, IsClear, IsClearOr-append, IsClearOr-before, IsClearOr-after, Halves, SplitsRight,
}
use mankoros.RangeMap.Remove.Left.{Good_at, clear_short}

module _ {ℓ} {V : Type ℓ} {B : Type 0} (den : V → ℕ → ℕ → B) where
  -- well formed, with no segment across `p`, and the same view
  pub record Cut (p : ℕ) (m m' : RangeMap V) : Type ℓ where
    pub valid : IsValid m'
    pub clear : IsClear p m'
    pub same : (k : ℕ) → view den m' k ≡ view den m k

  Cut-of :
      (Good : ℕ → ℕ → V → Type 0) (m : RangeMap V) (p : ℕ) (f : Found 0 p m) (v_l v_r : V)
      → p < f.node.end
      → Halves den Good f.node.value p f.start f.node.end v_l v_r
      → Cut p m (
          f.pre
          ++ (f.start, record { end = p; value = v_l })
            ∷ (p, record { end = f.node.end; value = v_r })
            ∷ f.post)
  Cut-of Good m p f v_l v_r h halves = record {
    valid =
        IsOrdered-append 0 f.start f.pre _ f.pre_within
          (omega arith, f.below, (omega arith, h, post));
    clear =
        IsClearOr-append _ p f.pre _
          (IsClearOr-before _ 0 f.start p f.pre f.pre_within (omega (arith, f.below)))
          (
            inl (omega arith),
            (inr (inl (omega arith)), IsClearOr-after _ _ p f.post post (omega arith)),
          );
    same = λ k. ground (
      arith,
      f.whole,
      f.below,
      view-parts den f.pre f.post f.start f.node k,
      view-parts den f.pre ((p, right) ∷ f.post) f.start left k,
      halves.left_same k,
      halves.right_same k,
    );
  }
    where
      left : Node V
      left = record { end = p; value = v_l }

      right : Node V
      right = record { end = f.node.end; value = v_r }

      post : IsOrdered f.node.end f.post
      post = IsOrdered-weaken _ f.node.end f.post (omega arith) f.post_ordered

  module _ (Good : ℕ → ℕ → V → Type 0) (split_r : Split V)
      (splits : SplitsRight den Good split_r) where
    -- On a well-formed map, where the closure cuts `Good` values in halves and a segment across the
    -- address is `Good`, `split_at_maybe` does not panic, keeps the map well formed, changes what
    -- no address says, and leaves no segment across the address.
    pub split_at_maybe_correct :
        (m : RangeMap V) (p : ℕ)
        → IsValid m
        → IsClearOr Good p m
        → Returns (Cut p m) (split_at_maybe m p split_r)
    unfolding split_at_maybe
    split_at_maybe_correct m p v good = elim (find 0 p m v) [
      | inl (rest, b) ↦ Returns-of {a = m} (ground (arith, b)) (record {
        valid = v;
        clear = IsClearOr-after _ _ p m rest (omega arith);
        same = λ k. refl;
      })
      | inr f ↦ elim (Bool-cases (leb f.node.end p)) [
        | inl short ↦
            Returns-of {a = m} (ground (arith, f.last))
              (record { valid = v; clear = clear_short p m f (ground arith); same = λ k. refl })
        | inr long ↦
            let h : p < f.node.end = ground arith in
            let ((v_l, v_r), e, halves) =
              Returns-inv
                (splits f.node.value p f.start f.node.end (Good_at Good p m f good h) f.below h) in
            Returns-of
              (ground (
                arith,
                f.last,
                f.whole,
                e,
                put-append 0 f.start f.pre f.post f.start f.node (record { end = p; value = v_l })
                    f.pre_within,
                try_insert_behind 0 (max f.node.end p) f.start p f.pre f.post
                    (record { end = p; value = v_l }) (record { end = f.node.end; value = v_r })
                    f.pre_within f.below (omega arith) f.post_ordered,
              ))
              (Cut-of Good m p f v_l v_r h halves)
      ]
    ]

  clear_log-view :
      (lo : ℕ) (m log : RangeMap V) (k : ℕ)
      → IsOrdered lo m
      → view den (clear_log m log) k ≡ or_else (view den m k) (view den log k)
  unfolding clear_log
  clear_log-view lo [] log k o = refl
  clear_log-view lo ((a, node) ∷ m) log k o =
      ground
        (arith, clear_log-view node.end m ((a, node) ∷ log) k o.2, view_before den node.end m k o.2)

  -- `clear` empties the map and releases all that it held.
  pub clear_correct :
      (m : RangeMap V) (k : ℕ)
      → IsValid m
      → ((clear m []).0 ≡ []) × (view den (clear m []).1 k ≡ view den m k)
  unfolding clear
  clear_correct m k v = (refl, ground (arith, clear_log-view 0 m [] k v))

  module _ (f : V → V) where
    -- what the copy says of an address: what the copied value says
    abbrev pub copied : V → ℕ → ℕ → B
    copied v a k = den (f v) a k

    fork_into_correct :
        (new m : RangeMap V) (hi : ℕ)
        → IsWithin 0 new hi
        → IsOrdered hi m
        → Returns
            (λ m'.
              IsValid m' × ((k : ℕ) → view den m' k ≡ or_else (view den new k) (view copied m k)))
            (fork_into f new m)
    unfolding fork_into
    fork_into_correct new [] hi w o =
        Returns-of {a = new} refl (IsOrdered-of_IsWithin 0 hi new w, λ k. ground arith)
    fork_into_correct new ((a, node) ∷ m) hi w o =
        let fresh : Node V = record { end = node.end; value = f node.value } in
        let new' = new ++ (a, fresh) ∷ [] in
        let step : fork_into f new ((a, node) ∷ m) ≡ fork_into f new' m = ground (
          arith,
          append-nil new,
          try_insert_between 0 hi (suc a) new [] a fresh w tt o.0 (omega arith),
        ) in
        let ih = fork_into_correct new' m node.end (IsWithin-snoc 0 hi a new fresh w o.0 o.1) o.2 in
        rw step (
          Returns-map ih λ m' (valid, same).
            (valid, λ k. ground (arith, same k, view-append den new ((a, fresh) ∷ []) k)))

    -- `fork` of a well-formed map does not panic, and makes a well-formed copy that says of each
    -- address what the function makes of the value there.
    pub fork_correct :
        (m : RangeMap V)
        → IsValid m
        → Returns (λ m'. IsValid m' × ((k : ℕ) → view den m' k ≡ view copied m k)) (fork m f)
    unfolding fork
    fork_correct m v = fork_into_correct [] m 0 (omega arith) v
