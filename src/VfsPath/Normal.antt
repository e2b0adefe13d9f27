-- ===== src/VfsPath/Normal.antt =====
-- What is read is normalised.
use mankoros.Base.{ℕ, ◌≡◌, false, inl, inr, List, [], ◌∷◌, ◌++◌, ◌==◌, All, Bool-cases}
use mankoros.VfsPath.Defs.{Name, slash, dot, same, split_from, pop_back, add_parts, from_string}
use mankoros.VfsPath.Text.{IsName}

abbrev HasNoSlash : Name → Type 0
HasNoSlash n = All (λ c. (c == slash) ≡ false) n

All-snoc : {A : Type 0} (P : A → Type 0) (l : List A) (x : A) → All P l → P x → All P (l ++ x ∷ [])
All-snoc P [] x a p = (p, tt)
All-snoc P (y ∷ l) x (q, a) p = (q, All-snoc P l x a p)

pop_back-All : (P : Name → Type 0) (l : List Name) → All P l → All P (pop_back l)
unfolding pop_back
pop_back-All P [] a = tt
pop_back-All P (n ∷ []) a = tt
pop_back-All P (n ∷ m ∷ l) (p, a) = (p, pop_back-All P (m ∷ l) a)

split_from-All : (part s : List ℕ) → HasNoSlash part → All HasNoSlash (split_from part s)
unfolding split_from
split_from-All part [] a = (a, tt)
split_from-All part (c ∷ s) a = elim (Bool-cases (c == slash)) [
  | inl e ↦ rw e (a, split_from-All [] s tt)
  | inr e ↦
      rw e (split_from-All (part ++ c ∷ []) s (All-snoc (λ d. (d == slash) ≡ false) part c a e))
]

add_parts-All :
    (components parts : List Name)
    → All IsName components
    → All HasNoSlash parts
    → All IsName (add_parts components parts)
unfolding add_parts
add_parts-All components [] a b = a
add_parts-All components (part ∷ parts) a (clean, b) = elim (Bool-cases (same part [])) [
  | inl e ↦ rw e (add_parts-All components parts a b)
  | inr e ↦ elim (Bool-cases (same part (dot ∷ []))) [
    | inl f ↦ rw (e, f) (add_parts-All components parts a b)
    | inr f ↦ elim (Bool-cases (same part (dot ∷ dot ∷ []))) [
      | inl g ↦
          rw (e, f, g)
            (add_parts-All (pop_back components) parts (pop_back-All IsName components a) b)
      | inr g ↦
          rw (e, f, g)
            (add_parts-All (components ++ part ∷ []) parts
              (All-snoc IsName components part a (e, f, g, clean)) b)
    ]
  ]
]

-- Every component that `from_string` reads is a proper name: not empty, not "." or "..", and
-- without a slash.
pub from_string-IsName : (s : List ℕ) → All IsName (from_string s).components
unfolding from_string
from_string-IsName s = add_parts-All [] (split_from [] s) tt (split_from-All [] s tt)
