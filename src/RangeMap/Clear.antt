-- ===== src/RangeMap/Clear.antt =====
-- Segments that do not cross an address, and what a cut of a range does to the map and the log.
use mankoros.Base.{ℕ, ◌≤◌, ◌<◌, ◌≡◌, refl, ◌∙◌, [], ◌∷◌, ◌++◌, arith, inl, inr, ◌⊎◌, Returns}
use mankoros.RangeMap.Defs.{RangeMap, Split}
use mankoros.RangeMap.View.{or_else, view, IsOrdered, IsWithin, le-IsWithin}

module _ {ℓ} {V : Type ℓ} where
  -- no segment crosses `p`, or only one that is `Good` from its start to its end
  abbrev pub IsClearOr : (ℕ → ℕ → V → Type 0) → ℕ → RangeMap V → Type 0
  IsClearOr Good p [] = Unit {0}
  IsClearOr Good p ((a, node) ∷ m) =
      ((node.end ≤ p) ⊎ (p ≤ a) ⊎ Good a node.end node.value) × IsClearOr Good p m

  abbrev pub IsClear : ℕ → RangeMap V → Type 0
  IsClear p m = IsClearOr (λ _ _ _. ⊥) p m

  pub IsClearOr-append :
      (Good : ℕ → ℕ → V → Type 0) (p : ℕ) (m n : RangeMap V)
      → IsClearOr Good p m
      → IsClearOr Good p n
      → IsClearOr Good p (m ++ n)
  IsClearOr-append Good p [] n c d = d
  IsClearOr-append Good p ((a, node) ∷ m) n c d = (c.0, IsClearOr-append Good p m n c.1 d)

  pub IsClearOr-parts :
      (Good : ℕ → ℕ → V → Type 0) (p : ℕ) (m n : RangeMap V)
      → IsClearOr Good p (m ++ n)
      → IsClearOr Good p m × IsClearOr Good p n
  IsClearOr-parts Good p [] n c = (tt, c)
  IsClearOr-parts Good p ((a, node) ∷ m) n c =
      let (d, e) = IsClearOr-parts Good p m n c.1 in ((c.0, d), e)

  pub IsClearOr-before :
      (Good : ℕ → ℕ → V → Type 0) (lo hi p : ℕ) (m : RangeMap V)
      → IsWithin lo m hi
      → hi ≤ p
      → IsClearOr Good p m
  IsClearOr-before Good lo hi p [] w h = tt
  IsClearOr-before Good lo hi p ((a, node) ∷ m) w h = (
    inl (omega (arith, le-IsWithin node.end hi m w.2)),
    IsClearOr-before Good node.end hi p m w.2 h,
  )

  pub IsClearOr-after :
      (Good : ℕ → ℕ → V → Type 0) (lo p : ℕ) (m : RangeMap V)
      → IsOrdered lo m
      → p ≤ lo
      → IsClearOr Good p m
  IsClearOr-after Good lo p [] o h = tt
  IsClearOr-after Good lo p ((a, node) ∷ m) o h =
      (inr (inl (omega arith)), IsClearOr-after Good node.end p m o.2 (omega arith))

-- no segment is empty
abbrev pub IsFilled {ℓ} : {V : Type ℓ} → RangeMap V → Type 0
IsFilled [] = Unit {0}
IsFilled ((a, node) ∷ m) = (a < node.end) × IsFilled m

module _ {ℓ} {V : Type ℓ} {B : Type 0} (den : V → ℕ → ℕ → B) where
  -- What moves from the map to the log lies in the range, and nothing is lost.
  pub record Moved (start end : ℕ) (s t : RangeMap V × RangeMap V) : Type ℓ where
    pub kept :
        (k : ℕ)
        → or_else (view den t.0 k) (view den t.1 k) ≡ or_else (view den s.0 k) (view den s.1 k)
    pub map_outside : (k : ℕ) → (k < start) ⊎ (end ≤ k) → view den t.0 k ≡ view den s.0 k
    pub log_outside : (k : ℕ) → (k < start) ⊎ (end ≤ k) → view den t.1 k ≡ view den s.1 k
    pub filled : IsFilled s.1 → IsFilled t.1

  pub Moved-refl : (start end : ℕ) (s : RangeMap V × RangeMap V) → Moved start end s s
  Moved-refl start end s = record {
    kept = λ k. refl;
    map_outside = λ k h. refl;
    log_outside = λ k h. refl;
    filled = λ h. h;
  }

  pub Moved-trans :
      (start end : ℕ) (s t u : RangeMap V × RangeMap V)
      → Moved start end s t
      → Moved start end t u
      → Moved start end s u
  Moved-trans start end s t u p q = record {
    kept = λ k. q.kept k ∙ p.kept k;
    map_outside = λ k h. q.map_outside k h ∙ p.map_outside k h;
    log_outside = λ k h. q.log_outside k h ∙ p.log_outside k h;
    filled = λ h. q.filled (p.filled h);
  }

  -- The two halves of a value that is cut at `p` say of their addresses what the value said.
  pub record Halves (Good : ℕ → ℕ → V → Type 0) (v : V) (p start end : ℕ) (l r : V) : Type 0 where
    pub left_good : Good start p l
    pub right_good : Good p end r
    pub left_same : (k : ℕ) → k < p → den l start k ≡ den v start k
    pub right_same : (k : ℕ) → p ≤ k → den r p k ≡ den v start k

  -- A closure that leaves the left half in place and returns the right half, and one that leaves
  -- the right half and returns the left one.
  abbrev pub SplitsRight : (ℕ → ℕ → V → Type 0) → Split V → Type ℓ
  SplitsRight Good split =
      (v : V) (p start end : ℕ)
      → Good start end v
      → start < p
      → p < end
      → Returns (λ (l, r). Halves Good v p start end l r) (split v p start end)

  abbrev pub SplitsLeft : (ℕ → ℕ → V → Type 0) → Split V → Type ℓ
  SplitsLeft Good split =
      (v : V) (p start end : ℕ)
      → Good start end v
      → start < p
      → p < end
      → Returns (λ (r, l). Halves Good v p start end l r) (split v p start end)
