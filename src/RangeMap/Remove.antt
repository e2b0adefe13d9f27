-- ===== src/RangeMap/Remove.antt =====
-- remove and replace, src/process/user_space/range_map.rs.
pub mod Left
pub mod Right
pub mod Inner
use mankoros.Base.{
  ℕ, suc, Bool, true, false, ◌&&◌, ◌≤◌, ◌<◌, ◌≡◌, refl, Option, none, some, [], ◌∷◌, leb, ltb,
  if◌then◌else◌, arith, inl, inr, ◌⊎◌, Bool-cases, Returns, Returns-of, Returns-bind, Returns-map,
  length,
}
use mankoros.RangeMap.Defs.{Node, RangeMap, Split, remove_left, remove_right, remove_inner, remove}
use mankoros.RangeMap.View.{view, IsOrdered, IsValid}
use mankoros.RangeMap.Clear.{IsClearOr, IsFilled, Moved, Moved-trans, SplitsRight, SplitsLeft}
use mankoros.RangeMap.Remove.Left.{left_correct}
use mankoros.RangeMap.Remove.Right.{right_correct}
use mankoros.RangeMap.Remove.Inner.{IsOutside, inner_correct}

module _ {ℓ} {V : Type ℓ} {B : Type 0} (den : V → ℕ → ℕ → B) where
  view_in :
      (m : RangeMap V) (start end k : ℕ)
      → IsOutside start end m
      → start ≤ k
      → k < end
      → view den m k ≡ none
  view_in [] start end k o p q = refl
  view_in ((a, node) ∷ m) start end k o p q = ground (arith, view_in m start end k o.1 p q)

  -- the map and the log after `remove`, against the map before
  pub record Removed (m : RangeMap V) (start end : ℕ) (t : RangeMap V × RangeMap V) : Type ℓ where
    pub valid : IsValid t.0
    pub left : (k : ℕ) → view den t.0 k ≡ (if leb start k && ltb k end then none else view den m k)
    pub released :
        (k : ℕ) → view den t.1 k ≡ (if leb start k && ltb k end then view den m k else none)
    pub filled : IsFilled t.1

  Removed-of :
      (m : RangeMap V) (start end : ℕ) (t : RangeMap V × RangeMap V)
      → IsValid t.0
      → IsOutside start end t.0
      → Moved den start end (m, []) t
      → Removed m start end t
  Removed-of m start end t v o moved = record {
    valid = v;
    left = λ k. elim (Bool-cases (leb start k && ltb k end)) [
      | inl yes_in ↦ rw yes_in (view_in t.0 start end k o (ground arith) (ground arith))
      | inr not_in ↦ rw not_in (moved.map_outside k (ground arith))
    ];
    released = λ k. elim (Bool-cases (leb start k && ltb k end)) [
      | inl yes_in ↦ rw yes_in (ground (arith, moved.kept k, view_in t.0 start end k o))
      | inr not_in ↦ rw not_in (moved.log_outside k (ground arith))
    ];
    filled = moved.filled tt;
  }

  module _ (Good : ℕ → ℕ → V → Type 0) (split_l split_r : Split V) where
    -- Where the closures cut `Good` values in halves, and the segments that cross an end of a non-
    -- empty range are `Good`, `remove` on a well-formed map does not panic, keeps the map well
    -- formed, takes exactly the range out of it, and releases what the map said of the range,
    -- address by address.
    pub remove_correct :
        SplitsLeft den Good split_l
        → SplitsRight den Good split_r
        → (m : RangeMap V) (start end : ℕ) → IsValid m
        → start < end
        → IsClearOr Good start m
        → IsClearOr Good end m
        → Returns (Removed m start end) (remove m start end split_l split_r [])
    unfolding remove
    remove_correct l r m start end v h c d =
        let whole = Returns-bind (left_correct den Good split_r r m [] start end v h c d) λ s p.
          Returns-bind (right_correct den Good split_l l s.0 s.1 start end p.valid h p.clear p.good)
            λ t q.
              Returns-map
                (inner_correct den (suc (length t.0)) t.0 t.1 start end (omega arith) q.valid
                  q.clear_start q.clear_end)
                λ u i. Removed-of m start end u i.valid i.outside (
                  Moved-trans den start end (m, []) s u p.moved
                    (Moved-trans den start end s t u q.moved i.moved)) in
        rw (late, remove) whole
      where
        late : leb end start ≡ false
        late = ground arith
