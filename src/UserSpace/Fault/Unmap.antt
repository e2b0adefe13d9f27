-- ===== src/UserSpace/Fault/Unmap.antt =====
-- `unmap_range`: the addresses of the range leave the map, and their pages are released.
use mankoros.Base.{
  ℕ, ◌+◌, ◌*◌, ◌≤◌, ◌<◌, ◌≡◌, ◌≢◌, Bool, true, false, ◌&&◌, ◌||◌, leb, ltb, if◌then◌else◌, none, [],
  ◌∷◌,
}
use mankoros.Address.{page_size}
use mankoros.RangeMap.{RangeMap}
use mankoros.RangeMap.View.{view, IsValid}
use mankoros.UserSpace.Split.{area_at}
use mankoros.UserSpace.Manager.{Areas}
use mankoros.UserSpace.Fault.Defs.{Pages}
use mankoros.UserSpace.Fault.Release.{Released, meets}

-- the page has an address of a segment
abbrev pub touches {ℓ} : {V : Type ℓ} → RangeMap V → ℕ → Bool
touches [] w = false
touches ((a, node) ∷ log) w = touches log w || meets a node.end w

abbrev EndBy {ℓ} : {V : Type ℓ} → ℕ → RangeMap V → Type 0
EndBy hi [] = Unit {0}
EndBy hi ((a, node) ∷ log) = (node.end ≤ hi) × EndBy hi log

module _ {File Shm : Type 0} where
  -- the address is in the page, in the range, and in an area
  abbrev pub IsTaken : Areas File Shm → ℕ → ℕ → ℕ → ℕ → Type 0
  IsTaken m start end w k =
      (w * page_size ≤ k)
      × (k < (w + 1) * page_size)
      × (start ≤ k)
      × (k < end)
      × (view area_at m k ≢ none)

module _ {C File Shm : Type 0} where
  -- the map and the pages after `unmap_range`
  pub record Unmapped (m : Areas File Shm) (s : Pages C) (start end n : ℕ)
      (o : Areas File Shm × Pages C) : Type 0 where
    pub valid : IsValid o.0
    pub left :
        (k : ℕ) → view area_at o.0 k ≡ (if leb start k && ltb k end then none else view area_at m k)
    pub gone : ℕ → Bool
    pub gone_taken : (w : ℕ) → gone w ≡ true → (k : ℕ) × IsTaken m start end w k
    pub taken_gone : (w k : ℕ) → IsTaken m start end w k → gone w ≡ true
    pub released : Released n gone s o.1
