-- ===== src/RangeMap/Merge.antt =====
-- merge.
use mankoros.Base.{
  ℕ, Bool, true, ◌&&◌, ◌≤◌, ◌<◌, ◌≡◌, ◌++◌, refl, ◌∙◌, some, [], ◌∷◌, ◌==◌, arith, inl, inr,
  Bool-cases, Option-cases, Returns, Returns-of,
}
use mankoros.BTreeMap
use mankoros.RangeMap.Defs.{Node, RangeMap, merge_next, merge_prev, merge}
use mankoros.RangeMap.View.{view, IsOrdered, IsValid, IsOrdered-weaken, IsOrdered-append}
use mankoros.RangeMap.Parts.{
  Found, find, put-append, erase-append_tail, get-append, get_at, get_before,
}
use mankoros.RangeMap.Lookup.{view-parts}
use mankoros.RangeMap.Resize.{Keyed, locate}

module _ {ℓ} {V : Type ℓ} where
  -- an entry at the lowest key that there may be is the first
  data FirstAt (lo : ℕ) (n : Node V) (m : RangeMap V) : Type ℓ where
    first_at :
        (rest : RangeMap V)
        → m ≡ (lo, n) ∷ rest
        → lo < n.end
        → IsOrdered n.end rest
        → FirstAt lo n m

  first_of :
      (lo : ℕ) (n : Node V) (m : RangeMap V)
      → IsOrdered lo m
      → BTreeMap.get lo m ≡ some n
      → FirstAt lo n m
  unfolding BTreeMap.get
  first_of lo n [] o e = absurd (cc)
  first_of lo n ((a, u) ∷ m) o e = elim (Bool-cases (a == lo)) [
    | inl same ↦
        let at : a ≡ lo = ground arith in
        let it : u ≡ n = ground arith in first_at m (ground arith) (ground arith) (rw (← it) o.2)
    | inr other ↦ absurd (ground (arith, get_before u.end m lo o.2))
  ]

  -- a later key is looked for behind the segment
  get-post :
      (k j : ℕ) (u : Node V) {n : Node V} (m : RangeMap V) (p : Keyed 0 k u m)
      → k < j
      → BTreeMap.get j m ≡ some n
      → BTreeMap.get j p.post ≡ some n
  unfolding BTreeMap.get
  get-post k j u m p h e =
      ground (arith, p.whole, get-append 0 k p.pre ((k, u) ∷ p.post) j p.pre_within)

  get-post-Found :
      (k : ℕ) {n : Node V} (m : RangeMap V) (p : Found 0 k m)
      → BTreeMap.get k m ≡ some n
      → BTreeMap.get k p.post ≡ some n
  unfolding BTreeMap.get
  get-post-Found k m p e = ground (
    arith,
    p.whole,
    p.below,
    get-append 0 p.start p.pre ((p.start, p.node) ∷ p.post) k p.pre_within,
  )

module _ {ℓ} {V : Type ℓ} {B : Type 0} (den : V → ℕ → ℕ → B) (f : V → V → Bool) where
  -- a value that may be joined to the one before it says what that one would go on to say
  abbrev pub Joins : Type ℓ
  Joins = (u v : V) (a b k : ℕ) → f u v ≡ true → a < b → b ≤ k → den v b k ≡ den u a k

  module _ (joins : Joins) where
    abbrev NextDone : RangeMap V → ℕ → RangeMap V × Node V → Type ℓ
    NextDone m start (m', cur') =
        IsValid m' × (BTreeMap.get start m' ≡ some cur') × ((k : ℕ) → view den m' k ≡ view den m k)

    merge_next_correct :
        (m : RangeMap V) (start : ℕ) (cur : Node V)
        → IsValid m
        → BTreeMap.get start m ≡ some cur
        → NextDone m start (merge_next m start cur f)
    unfolding merge_next
    merge_next_correct m start cur v e = elim (Option-cases (BTreeMap.get cur.end m)) [
      | inl last ↦
          let step : merge_next m start cur f ≡ (m, cur) = ground (arith, last) in
          rw (step, NextDone) (v, e, λ k. refl)
      | inr (nxt, next) ↦ elim (Bool-cases (f cur.value nxt.value)) [
        | inr apart ↦
            let step : merge_next m start cur f ≡ (m, cur) = ground (arith, next, apart) in
            rw (step, NextDone) (v, e, λ k. refl)
        | inl joined ↦
            let p = locate 0 start cur m v e in
            let grown : Node V = record cur { end = nxt.end } in
            elim (first_of cur.end nxt p.post p.post_ordered
              (get-post start cur.end cur m p (omega (arith, p.nonempty)) next)) [
                | first_at rest whole' ne ordered ↦
                    let step : merge_next m start cur f ≡ (p.pre ++ (start, grown) ∷ rest, grown) =
                      unfold BTreeMap.erase in
                      ground (
                        arith,
                        next,
                        joined,
                        p.whole,
                        whole',
                        p.nonempty,
                        erase-append_tail 0 start p.pre ((start, cur) ∷ p.post) cur.end
                            p.pre_within,
                        put-append 0 start p.pre rest start cur grown p.pre_within,
                      ) in
                    rw (step, NextDone)
                      (
                        IsOrdered-append 0 start p.pre _ p.pre_within
                            (omega arith, omega (arith, p.nonempty), ordered),
                        get_at 0 start p.pre rest start grown p.pre_within (omega arith),
                        λ k. ground (
                          arith,
                          p.whole,
                          p.nonempty,
                          whole',
                          ne,
                          view-parts den p.pre p.post start cur k,
                          view-parts den p.pre rest start grown k,
                          joins cur.value nxt.value start cur.end k joined p.nonempty,
                        ),
                      )
              ]
      ]
    ]

    abbrev pub Kept : RangeMap V → RangeMap V → Type 0
    Kept m m' = IsValid m' × ((k : ℕ) → view den m' k ≡ view den m k)

    merge_prev_correct :
        (m : RangeMap V) (start : ℕ) (cur : Node V)
        → IsValid m
        → BTreeMap.get start m ≡ some cur
        → Kept m (merge_prev m start cur f)
    unfolding merge_prev
    merge_prev_correct m start cur v e = elim (find 0 start m v) [
      | inl (rest, b) ↦
          let step : merge_prev m start cur f ≡ m = ground (arith, b) in
          rw (step, Kept) (v, λ k. refl)
      | inr p ↦ elim (Bool-cases (p.node.end == start && f p.node.value cur.value)) [
        | inr apart ↦
            let step : merge_prev m start cur f ≡ m = ground (arith, p.last, apart) in
            rw (step, Kept) (v, λ k. refl)
        | inl joined ↦
            let meets : p.node.end ≡ start = ground arith in
            let may : f p.node.value cur.value ≡ true = ground arith in
            let grown : Node V = record p.node { end = cur.end } in
            elim (first_of start cur p.post
              (IsOrdered-weaken _ start p.post (omega arith) p.post_ordered)
              (get-post-Found start m p e)) [
                | first_at rest whole' ne ordered ↦
                    let step : merge_prev m start cur f ≡ p.pre ++ (p.start, grown) ∷ rest =
                      unfold BTreeMap.erase in
                      ground (
                        arith,
                        p.last,
                        joined,
                        p.whole,
                        whole',
                        p.below,
                        put-append 0 p.start p.pre p.post p.start p.node grown p.pre_within,
                        erase-append_tail 0 p.start p.pre ((p.start, grown) ∷ p.post) start
                            p.pre_within,
                      ) in
                    rw (step, Kept)
                      (
                        IsOrdered-append 0 p.start p.pre _ p.pre_within
                            (omega arith, omega (arith, p.below), ordered),
                        λ k. ground (
                          arith,
                          p.whole,
                          p.nonempty,
                          whole',
                          ne,
                          view-parts den p.pre p.post p.start p.node k,
                          view-parts den p.pre rest p.start grown k,
                          joins p.node.value cur.value p.start start k may p.below,
                        ),
                      )
              ]
      ]
    ]

    -- For a segment of a well-formed map, and a test under which values may be joined, `merge` does
    -- not panic, keeps the map well formed, and changes what no address says.
    pub merge_correct :
        (m : RangeMap V) (start : ℕ) (cur : Node V)
        → IsValid m
        → BTreeMap.get start m ≡ some cur
        → Returns (Kept m) (merge m start cur.end f)
    unfolding merge
    merge_correct m start cur v e =
        let (v', e', same) = merge_next_correct m start cur v e in
        let (m', cur') = merge_next m start cur f in
        let (v'', same') =
          merge_prev_correct (merge_next m start cur f).0 start (merge_next m start cur f).1 v'
            e' in
        Returns-of (ground (arith, e)) (v'', λ k. same' k ∙ same k)
