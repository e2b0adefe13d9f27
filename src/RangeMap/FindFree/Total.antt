-- ===== src/RangeMap/FindFree/Total.antt =====
-- find_free_range returns, and does not panic.
use mankoros.Base.{
  ℕ, ◌&&◌, ◌+◌, ◌≤◌, ◌≡◌, Option, none, some, [], ◌∷◌, ◌++◌, leb, ltb, max, arith, inl, inr, Run,
  ok, Bool-cases, Returns, Returns-of, Returns-inv, returns,
}
use mankoros.BTreeMap
use mankoros.RangeMap.Defs.{RangeMap, find_free_loop, find_free_from, find_free_range}
use mankoros.RangeMap.View.{IsValid}
use mankoros.RangeMap.Parts.{Found, find}
use mankoros.RangeMap.Clear.{IsClear, IsClearOr-parts}
use mankoros.RangeMap.FindFree.{Grows, find_free_range-IsFree}
use mankoros.RangeMap.Free.{IsFree}

-- `offset` returns up to `bound`, and keeps the order
abbrev pub IsTotal : (ℕ → ℕ → Run ℕ) → ℕ → ℕ → Type 0
IsTotal offset size bound =
    ((a : ℕ) → a ≤ bound → (t : ℕ) × (offset a size ≡ ok t))
    × ((a b s t : ℕ) → a ≤ b → offset a size ≡ ok s → offset b size ≡ ok t → s ≤ t)

module _ {ℓ} {V : Type ℓ} where
  abbrev pub EndsBy : ℕ → RangeMap V → Type 0
  EndsBy bound [] = Unit {0}
  EndsBy bound ((a, node) ∷ m) = (node.end ≤ bound) × EndsBy bound m

  EndsBy-parts :
      (bound : ℕ) (m n : RangeMap V) → EndsBy bound (m ++ n) → EndsBy bound m × EndsBy bound n
  EndsBy-parts bound [] n e = (tt, e)
  EndsBy-parts bound ((a, node) ∷ m) n e = let (p, q) = EndsBy-parts bound m n e.1 in ((e.0, p), q)

-- a place that the offset function keeps inside the window
abbrev pub Fits : (ℕ → ℕ → Run ℕ) → ℕ → ℕ → Option ℕ → Type 0
Fits offset end size none = Unit {0}
Fits offset end size (some s) = (t : ℕ) × (offset s size ≡ ok t) × (t ≤ end)

module _ {ℓ} {V : Type ℓ} (offset : ℕ → ℕ → Run ℕ) (end size bound : ℕ)
    (total : IsTotal offset size bound) where
  loop_total :
      (a s t : ℕ) (m : RangeMap V)
      → EndsBy bound m
      → offset s size ≡ ok t
      → t ≤ end
      → Returns (Fits offset end size) (find_free_loop end size offset s (BTreeMap.between a end m))
  unfolding find_free_loop BTreeMap.between
  loop_total a s t [] b e h = returns (t, e, h)
  loop_total a s t ((x, n) ∷ m) b e h =
      let (t', e') = total.0 n.end b.0 in
      elim (Bool-cases (leb a x && ltb x end)) [
        | inr out ↦ rw out (loop_total a s t m b.1 e h)
        | inl inside ↦ elim (Bool-cases (ltb end t')) [
          | inl full ↦ Returns-of {a = none} (ground (arith, inside, e')) tt
          | inr room ↦ elim (Bool-cases (leb t' x)) [
            | inl fits ↦ Returns-of {a = some s} (ground (arith, inside, e')) (t, e, h)
            | inr tight ↦
                let (o, is, fits) = Returns-inv (loop_total a n.end t' m b.1 e' (ground arith)) in
                Returns-of {a = o} (ground (arith, inside, e', is)) fits
          ]
        ]
      ]

  from_loop :
      (start t : ℕ) (m : RangeMap V) (o : Option ℕ)
      → start ≤ end
      → find_free_loop end size offset start (BTreeMap.between start end m) ≡ ok o
      → Fits offset end size o
      → Returns (λ _. Unit {0}) (find_free_from m end size offset start)
  unfolding find_free_from
  from_loop start t m none h is fits = Returns-of {a = none} (ground (arith, is)) tt
  from_loop start t m (some s) h is (t', e, fits) =
      Returns-of {a = some (s, t')} (ground (arith, is)) tt

  from_total :
      (start t : ℕ) (m : RangeMap V)
      → EndsBy bound m
      → offset start size ≡ ok t
      → start ≤ t
      → t ≤ end
      → Returns (λ _. Unit {0}) (find_free_from m end size offset start)
  from_total start t m b e g h =
      let (o, is, fits) = Returns-inv (loop_total start start t m b e h) in
      from_loop start t m o (omega arith) is fits

  range_total :
      (m : RangeMap V) (start : ℕ)
      → Grows offset
      → IsValid m
      → IsClear start m
      → EndsBy bound m
      → start ≤ bound
      → Returns (λ _. Unit {0}) (find_free_range m start end size offset)
  unfolding find_free_range
  range_total m start grows v c b h =
      let (t, is) = total.0 start h in
      elim (Bool-cases (ltb end t)) [
        | inl full ↦ Returns-of {a = none} (ground (arith, is)) tt
        | inr room ↦ elim (find 0 start m v) [
          | inl (rest, e) ↦
              let (o, found, _) =
                Returns-inv (
                  from_total start t m b is (omega (arith, grows start size t is))
                    (ground arith)) in
              Returns-of {a = o} (ground (arith, is, e, found)) tt
          | inr f ↦
              let (o, found, _) =
                Returns-inv (
                  from_total start t m b is (omega (arith, grows start size t is))
                    (ground arith)) in
              let before : f.node.end ≤ start = short f in
              let (t', is') = total.0 f.node.end (omega arith) in
              let below : t' ≤ end = ground (arith, total.1 f.node.end start t' t before is' is) in
              let same : max start f.node.end ≡ start = omega arith in
              Returns-of {a = o} (ground (arith, is, is', f.last, found, same)) tt
        ]
      ]
    where
      short : (f : Found 0 start m) → f.node.end ≤ start
      short f = elim ((IsClearOr-parts (λ _ _ _. ⊥) start f.pre _ (rw f.whole at c)).1.0) [
        | inl a ↦ a
        | inr (inl a) ↦ absurd (omega (arith, f.below))
        | inr (inr e) ↦ absurd e
      ]

module _ {ℓ} {V : Type ℓ} {B : Type 0} (den : V → ℕ → ℕ → B) (offset : ℕ → ℕ → Run ℕ)
    (end size : ℕ) where
  -- what is returned: nothing, or a free range of the window
  abbrev pub Placed : RangeMap V → ℕ → Option (ℕ × ℕ) → Type 0
  Placed m start none = Unit {0}
  Placed m start (some (s, t)) =
      (start ≤ s) × (offset s size ≡ ok t) × (s + size ≤ t) × (t ≤ end) × IsFree den m s end

  -- Where `offset` does not go back, keeps the order, and returns on the addresses of the map, and
  -- no segment crosses the start of the window, `find_free_range` on a well-formed map does not
  -- panic: it returns nothing, or a range of the window with nothing mapped from there to the end
  -- of the window.
  pub find_free_range_correct :
      (bound : ℕ) (m : RangeMap V) (start : ℕ)
      → IsTotal offset size bound
      → Grows offset
      → IsValid m
      → IsClear start m
      → EndsBy bound m
      → start ≤ bound
      → Returns (Placed m start) (find_free_range m start end size offset)
  find_free_range_correct bound m start total grows v c b h =
      let (o, is, _) =
        Returns-inv (range_total offset end size bound total m start grows v c b h) in
      Returns-of {a = o} is (placed o is)
    where
      placed :
          (o : Option (ℕ × ℕ)) → find_free_range m start end size offset ≡ ok o → Placed m start o
      placed none is = tt
      placed (some (s, t)) is = find_free_range-IsFree den offset grows end size m start s t v is
