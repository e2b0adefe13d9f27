-- ===== src/UserSpace/Fault/Tables.antt =====
-- The tables that a fault makes on the way to the entry of its page: there may be no frame for one.
use mankoros.Base.{
  ℕ, ◌*◌, ◌^◌, ◌/◌, ◌≡◌, ◌⊎◌, inl, inr, refl, ap, ◌∙◌, Bool-cases, Option, none, some, List, [],
  ◌∷◌, update, Run, ok, panic, ◌>>=◌, Run-cases, ok-injective, arith,
}
use mankoros.Address.{page_size}
use mankoros.Address.Phys
use mankoros.Frame
use mankoros.Frame.{Frames}
use mankoros.UserSpace.Perm.{UserAreaPerm}
use mankoros.UserSpace.Fault.Defs.{
  Pages, create_table, create_mid, create_last, create_tables, remap_page, map_new,
}
use mankoros.UserSpace.Fault.Cow.{IsFrame, entry_of}

module _ {C : Type 0} where
  -- what a table is made of leaves the entries of the pages
  Keeps : Pages C → Run (Pages C) → Type 0
  Keeps s r = (u : Pages C) → r ≡ ok u → u.entries ≡ s.entries

  Keeps-panic : (s : Pages C) → Keeps s panic
  unfolding Keeps
  Keeps-panic s u e = absurd (cc)

  Keeps-ok : (s t : Pages C) → t.entries ≡ s.entries → Keeps s (ok t)
  unfolding Keeps
  Keeps-ok s t h u e = ap (λ (p : Pages C). p.entries) (ok-injective e refl) ∙ h

  Keeps-bind :
      (s : Pages C) (r : Run (Pages C)) (f : Pages C → Run (Pages C))
      → Keeps s r
      → ((t : Pages C) → Keeps t (f t))
      → Keeps s (r >>= f)
  unfolding Keeps
  Keeps-bind s (ok t) f h k u e = k t u e ∙ h t refl
  Keeps-bind s panic f h k u e = absurd (cc)

  taken-Keeps :
      (s : Pages C) (picks : List (Option ℕ)) (r : Run (Option ℕ × Frames))
      → Keeps s (
          r >>= λ (taken, fs). elim taken [
            | none ↦ panic
            | some table ↦ ok (record s { frames = fs; table_picks = picks })
          ])
  taken-Keeps s picks (ok (none, fs)) = Keeps-panic s
  taken-Keeps s picks (ok (some table, fs)) = Keeps-ok s _ refl
  taken-Keeps s picks panic = Keeps-panic s

  picks-Keeps : (s : Pages C) (l : List (Option ℕ)) → s.table_picks ≡ l → Keeps s (create_table s)
  unfolding create_table Keeps
  picks-Keeps s [] e = rw e (Keeps-panic s)
  picks-Keeps s (pick ∷ picks) e = rw e (taken-Keeps s picks (Frame.alloc_frame s.frames pick))

  mid-Keeps : (s : Pages C) (vpn : ℕ) → Keeps s (create_mid s vpn)
  unfolding create_mid
  mid-Keeps s vpn = elim (Bool-cases (s.mid_tables (vpn / 2 ^ 18))) [
    | inl there ↦ rw there (Keeps-ok s s refl)
    | inr gone ↦ rw gone (
        Keeps-bind s (create_table s) _ (picks-Keeps s s.table_picks refl) (λ t. Keeps-ok t _ refl))
  ]

  last-Keeps : (s : Pages C) (vpn : ℕ) → Keeps s (create_last s vpn)
  unfolding create_last
  last-Keeps s vpn = elim (Bool-cases (s.last_tables (vpn / 2 ^ 9))) [
    | inl there ↦ rw there (Keeps-ok s s refl)
    | inr gone ↦ rw gone (
        Keeps-bind s (create_table s) _ (picks-Keeps s s.table_picks refl) (λ t. Keeps-ok t _ refl))
  ]

  tables-Keeps : (s : Pages C) (vpn : ℕ) → Keeps s (create_tables s vpn)
  unfolding create_tables
  tables-Keeps s vpn = Keeps-bind s (create_mid s vpn) _ (mid-Keeps s vpn) (λ t. last-Keeps t vpn)

  -- mapping a frame panics exactly where a table is missing and there is no frame for it
  pub map_new-cases :
      (s : Pages C) (g : Frames) (vpn q : ℕ) (perm : UserAreaPerm)
      → IsFrame g q
      → ((create_tables s vpn ≡ panic) × (map_new s vpn (q * page_size) perm ≡ panic))
        ⊎ ((u : Pages C) × (create_tables s vpn ≡ ok u)
            × (u.entries ≡ s.entries)
            × (map_new s vpn (q * page_size) perm
                ≡ ok (none, record u { entries = update u.entries vpn (some (entry_of perm q)) })))
  unfolding map_new remap_page Phys.is_valid Keeps
  map_new-cases s g vpn q perm h = elim (Run-cases (create_tables s vpn)) [
    | inl (u, e) ↦ inr (u, e, tables-Keeps s vpn u e, ground (arith, e))
    | inr e ↦ inl (e, ground (arith, e))
  ]
