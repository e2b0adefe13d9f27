-- ===== src/UserSpace/Heap.antt =====
-- The heap: `brk`, src/process/user_space/user_area.rs.
use mankoros.Base.{
  ℕ, suc, ◌≤◌, ◌<◌, ◌≡◌, ◌≢◌, refl, true, false, ◌&&◌, ◌⊎◌, inl, inr, Option, none, some, [], ◌∷◌,
  leb, ltb, ltb→lt, if◌then◌else◌, ok, panic, Bool-cases, Option-cases, Returns, Returns-of,
  Returns-inv, returns, arith,
}
use mankoros.Errors.{SysResult, done, err, enomem}
use mankoros.BTreeMap
use mankoros.RangeMap
use mankoros.RangeMap.{RangeMap, Node}
use mankoros.RangeMap.View.{view, IsValid, IsOrdered}
use mankoros.RangeMap.Lookup.{get_correct}
use mankoros.RangeMap.Resize.{Extended, Reduced, extend_back_correct, reduce_back_correct}
use mankoros.UserSpace.Area.{UserArea}
use mankoros.UserSpace.Split.{area_at}
use mankoros.UserSpace.Manager.{Areas, heap_beg, get_heap_break, reset_heap_break}

module _ {ℓ} {V : Type ℓ} where
  get_before_all : (lo k : ℕ) (m : RangeMap V) → IsOrdered lo m → k < lo → BTreeMap.get k m ≡ none
  unfolding BTreeMap.get
  get_before_all lo k [] o h = refl
  get_before_all lo k ((a, n) ∷ m) o h = ground (arith, get_before_all n.end k m o.2)

  none_below :
      (lo k : ℕ) (m : RangeMap V) → IsOrdered lo m → k ≤ lo → BTreeMap.last_below k m ≡ none
  unfolding BTreeMap.last_below
  none_below lo k [] o h = refl
  none_below lo k ((a, n) ∷ m) o h = ground (arith, none_below n.end k m o.2)

  last_at :
      (lo k : ℕ) (node : Node V) (m : RangeMap V)
      → IsOrdered lo m
      → BTreeMap.get k m ≡ some node
      → (BTreeMap.last_below (suc k) m ≡ some (k, node)) × (k < node.end)
  unfolding BTreeMap.last_below BTreeMap.get
  last_at lo k node [] o e = absurd (ground arith)
  last_at lo k node ((a, n) ∷ m) o e = ground (
    arith,
    get_before_all n.end k m o.2,
    none_below n.end (suc k) m o.2,
    last_at n.end k node m o.2,
  )

  get_at_start :
      (k : ℕ) (node : Node V) (m : RangeMap V)
      → IsValid m
      → BTreeMap.get k m ≡ some node
      → RangeMap.get m k ≡ some (k, node.end, node.value)
  unfolding RangeMap.get
  get_at_start k node m v e = ground (arith, last_at 0 k node m v e)

module _ {File Shm : Type 0} where
  -- what `brk` answers for a heap up to `node.end`: an error, that leaves the map, or the map with the heap
  -- up to the new break
  abbrev pub Broke :
      Areas File Shm → Node (UserArea File Shm) → ℕ → SysResult (Unit {0}) × Areas File Shm → Type 0
  Broke m node brk (err e, m') =
      (e ≡ enomem)
      × (m' ≡ m)
      × ((brk < heap_beg) ⊎ ((k : ℕ) × (node.end ≤ k) × (k < brk) × (view area_at m k ≢ none)))
  Broke m node brk (done _, m') =
      IsValid m'
      × (heap_beg ≤ brk)
      × ((k : ℕ) → node.end ≤ k → k < brk → view area_at m k ≡ none)
      × ((k : ℕ)
          → view area_at m' k ≡ (
              if leb node.end k && ltb k brk
              then some (area_at node.value heap_beg k)
              else if leb brk k && ltb k node.end
              then none
              else view area_at m k))

  -- `reset_heap_break` on a well-formed map with a heap does not panic: it refuses exactly a break
  -- before the heap or one with another area between the end of the heap and the break, and else
  -- adds to the heap the addresses up to a higher break, or takes out of it the addresses from a
  -- lower break on, and changes no other address.
  pub reset_heap_break_correct :
      (m : Areas File Shm) (node : Node (UserArea File Shm)) (brk : ℕ)
      → IsValid m
      → BTreeMap.get heap_beg m ≡ some node
      → Returns (Broke m node brk) (reset_heap_break m brk)
  unfolding reset_heap_break
  reset_heap_break_correct m node brk v e = elim (Bool-cases (ltb node.end brk)) [
    | inl higher ↦
        let (o, is, p) = Returns-inv (extend_back_correct area_at m heap_beg brk node v e) in
        extended o is p higher
    | inr not_higher ↦ elim (Bool-cases (ltb brk node.end)) [
      | inl lower ↦
          let (o, is, p) = Returns-inv (reduce_back_correct area_at m heap_beg brk node v e) in
          reduced o is p not_higher lower
      | inr same ↦
          let order : node.end ≤ brk = ground (arith, same) in
          let heap : heap_beg < node.end = (last_at 0 heap_beg node m v e).1 in
          Returns-of {a = (done tt, m)}
            (ground (arith, get_at_start heap_beg node m v e, not_higher, same))
            (
              v,
              omega (arith, order, heap),
              λ k p q. absurd (ground (arith, same)),
              λ k. ground arith,
            )
    ]
  ]
    where
      extended :
          (o : Option (Areas File Shm))
          → RangeMap.extend_back m heap_beg brk ≡ ok o
          → Extended area_at m heap_beg node brk o
          → ltb node.end brk ≡ true
          → Returns (Broke m node brk) (reset_heap_break m brk)
      extended none is p higher =
          Returns-of {a = (err enomem, m)} (ground (arith, get_at_start heap_beg node m v e, is))
            (refl, refl, ground (arith, p))
      extended (some m') is p higher =
          Returns-of {a = (done tt, m')} (ground (arith, get_at_start heap_beg node m v e, is)) (
            p.0,
            omega (arith, (last_at 0 heap_beg node m v e).1, ltb→lt _ _ higher),
            p.1,
            λ k. ground (arith, p.2 k),
          )

      reduced :
          (o : Option (ℕ × ℕ × Areas File Shm))
          → RangeMap.reduce_back m heap_beg brk ≡ ok o
          → Reduced area_at m heap_beg node brk o
          → ltb node.end brk ≡ false
          → ltb brk node.end ≡ true
          → Returns (Broke m node brk) (reset_heap_break m brk)
      reduced none is p not_higher lower =
          Returns-of {a = (err enomem, m)} (ground (arith, get_at_start heap_beg node m v e, is))
            (refl, refl, ground (arith, p))
      reduced (some (lo, hi, m')) is (starts, low, high, v', same) not_higher lower =
          Returns-of {a = (done tt, m')} (ground (arith, get_at_start heap_beg node m v e, is)) (
            v',
            starts,
            λ k q r. absurd (ground (arith, not_higher, lower)),
            λ k. ground (arith, same k),
          )

  break_of_none :
      (m : Areas File Shm) → IsValid m → view area_at m heap_beg ≡ none → get_heap_break m ≡ panic
  unfolding get_heap_break
  break_of_none m v e = elim (Option-cases (RangeMap.get m heap_beg)) [
    | inl gone ↦ ground (arith, gone)
    | inr (_, there) ↦ absurd (ground (arith, there, e, get_correct area_at m heap_beg v))
  ]

  abbrev pub LosesHeap : SysResult (Unit {0}) × Areas File Shm → Type 0
  LosesHeap (r, m) = (r ≡ done tt) × (get_heap_break m ≡ panic)

  -- On a well-formed map a break at the start of a heap is accepted, and takes the heap away:
  -- asking for the break panics afterwards.
  pub reset_heap_break-LosesHeap :
      (m : Areas File Shm) (node : Node (UserArea File Shm))
      → IsValid m
      → BTreeMap.get heap_beg m ≡ some node
      → Returns LosesHeap (reset_heap_break m heap_beg)
  reset_heap_break-LosesHeap m node v e =
      let ((r, m'), is, p) = Returns-inv (reset_heap_break_correct m node heap_beg v e) in
      rw is (lost r m' p)
    where
      lost :
          (r : SysResult (Unit {0})) (m' : Areas File Shm)
          → Broke m node heap_beg (r, m')
          → Returns LosesHeap (ok (r, m'))
      lost (err x) m' (_, _, inl low) = absurd (omega arith)
      lost (err x) m' (_, _, inr (k, p, q, _)) =
          absurd (omega (arith, (last_at 0 heap_beg node m v e).1))
      lost (done _) m' (v', _, _, same) = returns (
        refl,
        break_of_none m' v' (ground (arith, same heap_beg, (last_at 0 heap_beg node m v e).1)),
      )
