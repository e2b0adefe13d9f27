-- ===== src/RangeMap/View.antt =====
-- What a range map says of each address, when it is well formed, and its parts before and after a
-- segment.
use mankoros.Base.{
  ℕ, ◌&&◌, ◌≤◌, ◌<◌, ◌≡◌, refl, Option, none, some, [], ◌∷◌, ◌++◌, leb, ltb, if◌then◌else◌, arith,
}
use mankoros.RangeMap.Defs.{Node, RangeMap}

abbrev pub or_else {ℓ} : {B : Type ℓ} → Option B → Option B → Option B
or_else (some b) o = some b
or_else none o = o

-- What `den` makes of the segment that covers the address: `den v a k` is what the value `v` of a
-- segment that starts at `a` says of the address `k`.
module _ {ℓ κ} {V : Type ℓ} {B : Type κ} (den : V → ℕ → ℕ → B) where
  abbrev pub view : RangeMap V → ℕ → Option B
  view [] k = none
  view ((a, node) ∷ m) k = if leb a k && ltb k node.end then some (den node.value a k) else view m k

  pub view-append : (m n : RangeMap V) (k : ℕ) → view (m ++ n) k ≡ or_else (view m k) (view n k)
  view-append [] n k = refl
  view-append ((a, node) ∷ m) n k = ground (arith, view-append m n k)

module _ {ℓ} {V : Type ℓ} where
  -- The segments are not empty, do not overlap, and stand in order from `lo` on.
  abbrev pub IsOrdered : ℕ → RangeMap V → Type 0
  IsOrdered lo [] = Unit {0}
  IsOrdered lo ((a, node) ∷ m) = (lo ≤ a) × (a < node.end) × IsOrdered node.end m

  abbrev pub IsValid : RangeMap V → Type 0
  IsValid m = IsOrdered 0 m

  -- So, and they end by `hi`.
  abbrev pub IsWithin : ℕ → RangeMap V → ℕ → Type 0
  IsWithin lo [] hi = lo ≤ hi
  IsWithin lo ((a, node) ∷ m) hi = (lo ≤ a) × (a < node.end) × IsWithin node.end m hi

  pub IsOrdered-weaken : (lo lo' : ℕ) (m : RangeMap V) → lo' ≤ lo → IsOrdered lo m → IsOrdered lo' m
  IsOrdered-weaken lo lo' [] h o = tt
  IsOrdered-weaken lo lo' ((a, node) ∷ m) h o = (omega arith, o.1, o.2)

  pub IsWithin-weaken :
      (lo hi hi' : ℕ) (m : RangeMap V) → hi ≤ hi' → IsWithin lo m hi → IsWithin lo m hi'
  IsWithin-weaken lo hi hi' [] h w = omega arith
  IsWithin-weaken lo hi hi' ((a, node) ∷ m) h w =
      (w.0, w.1, IsWithin-weaken node.end hi hi' m h w.2)

  pub le-IsWithin : (lo hi : ℕ) (m : RangeMap V) → IsWithin lo m hi → lo ≤ hi
  le-IsWithin lo hi [] w = w
  le-IsWithin lo hi ((a, node) ∷ m) w = omega (arith, le-IsWithin node.end hi m w.2)

  pub IsOrdered-append :
      (lo hi : ℕ) (m n : RangeMap V) → IsWithin lo m hi → IsOrdered hi n → IsOrdered lo (m ++ n)
  IsOrdered-append lo hi [] n w o = IsOrdered-weaken hi lo n w o
  IsOrdered-append lo hi ((a, node) ∷ m) n w o = (w.0, w.1, IsOrdered-append node.end hi m n w.2 o)

  pub IsOrdered-of_IsWithin : (lo hi : ℕ) (m : RangeMap V) → IsWithin lo m hi → IsOrdered lo m
  IsOrdered-of_IsWithin lo hi [] w = tt
  IsOrdered-of_IsWithin lo hi ((a, node) ∷ m) w =
      (w.0, w.1, IsOrdered-of_IsWithin node.end hi m w.2)

  pub IsWithin-snoc :
      (lo hi a : ℕ) (m : RangeMap V) (node : Node V)
      → IsWithin lo m hi
      → hi ≤ a
      → a < node.end
      → IsWithin lo (m ++ (a, node) ∷ []) node.end
  IsWithin-snoc lo hi a [] node w h n = (omega arith, n, omega arith)
  IsWithin-snoc lo hi a ((b, u) ∷ m) node w h n =
      (w.0, w.1, IsWithin-snoc u.end hi a m node w.2 h n)

module _ {ℓ κ} {V : Type ℓ} {B : Type κ} (den : V → ℕ → ℕ → B) where
  pub view_before :
      (lo : ℕ) (m : RangeMap V) (k : ℕ) → IsOrdered lo m → k < lo → view den m k ≡ none
  view_before lo [] k o h = refl
  view_before lo ((a, node) ∷ m) k o h = ground (arith, view_before node.end m k o.2)

  pub view_after :
      (lo hi : ℕ) (m : RangeMap V) (k : ℕ) → IsWithin lo m hi → hi ≤ k → view den m k ≡ none
  view_after lo hi [] k w h = refl
  view_after lo hi ((a, node) ∷ m) k w h =
      ground (arith, le-IsWithin node.end hi m w.2, view_after node.end hi m k w.2 h)
