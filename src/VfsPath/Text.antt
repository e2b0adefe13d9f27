-- ===== src/VfsPath/Text.antt =====
-- A path written out and read again.
use mankoros.Base.{
  ℕ, ◌≡◌, refl, sym, ap, Bool, true, false, List, [], ◌∷◌, ◌++◌, ◌==◌, if◌then◌else◌, All, arith,
}
use mathlib.Core.List.{append-nil, append_assoc}
use mankoros.VfsPath.Defs.{
  Name, VfsPath, slash, dot, same, split_from, is_empty, add_parts, starts_with_slash, from_string,
  join, to_string,
}

-- a component of a normalised path: not empty, not "." or "..", and without '/'
abbrev pub IsName : Name → Type 0
IsName n =
    (same n [] ≡ false)
    × (same n (dot ∷ []) ≡ false)
    × (same n (dot ∷ dot ∷ []) ≡ false)
    × All (λ c. (c == slash) ≡ false) n

split-name :
    (part n s : List ℕ)
    → All (λ c. (c == slash) ≡ false) n
    → split_from part (n ++ s) ≡ split_from (part ++ n) s
unfolding split_from
split-name part [] s a = ap (λ p. split_from p s) (sym (append-nil part))
split-name part (c ∷ n) s a =
    let rest = split-name (part ++ c ∷ []) n s a.1 in
    ground (arith, a.0, rest, append_assoc part (c ∷ []) n)

split-join :
    (n : Name) (l : List Name) → IsName n → All IsName l → split_from [] (join (n ∷ l)) ≡ n ∷ l
unfolding split_from join
split-join n [] h a = ground (arith, split-name [] n [] h.3, append-nil n)
split-join n (m ∷ l) h a =
    ground (arith, split-name [] n (slash ∷ join (m ∷ l)) h.3, split-join m l a.0 a.1)

add_parts-names :
    (components l : List Name) → All IsName l → add_parts components l ≡ components ++ l
unfolding add_parts
add_parts-names components [] a = sym (append-nil components)
add_parts-names components (n ∷ l) (h, a) =
    let rest = add_parts-names (components ++ n ∷ []) l a in
    ground (arith, h.0, h.1, h.2, rest, append_assoc components (n ∷ []) l)

starts-join : (n : Name) (l : List Name) → IsName n → starts_with_slash (join (n ∷ l)) ≡ false
unfolding starts_with_slash join same
starts-join [] l h = absurd (ground (arith, h.0))
starts-join (c ∷ n) [] h = h.3.0
starts-join (c ∷ n) (m ∷ l) h = h.3.0

dot-join : (n : Name) (l : List Name) → IsName n → same (join (n ∷ l)) (dot ∷ []) ≡ false
unfolding join same
dot-join n [] h = h.1
dot-join [] (m ∷ l) h = absurd (ground (arith, h.0))
dot-join (c ∷ []) (m ∷ l) h = ground arith
dot-join (c ∷ d ∷ n) (m ∷ l) h = ground arith

read_back :
    (absolute : Bool) (l : List Name)
    → All IsName l
    → from_string (if absolute then slash ∷ join l else join l)
      ≡ record { is_absolute = absolute; is_current = is_empty l; components = l }
unfolding from_string split_from add_parts starts_with_slash is_empty same join
read_back true [] a = refl
read_back false [] a = refl
read_back true (n ∷ l) a = ground (arith, split-join n l a.0 a.1, add_parts-names [] (n ∷ l) a)
read_back false (n ∷ l) a = ground (
  arith,
  split-join n l a.0 a.1,
  add_parts-names [] (n ∷ l) a,
  starts-join n l a.0,
  dot-join n l a.0,
)

-- A path whose components are proper names, written out and read again, has the same components and
-- is absolute as before; it is the current directory exactly where it has no component.
pub from_string-to_string :
    (p : VfsPath)
    → All IsName p.components
    → from_string (to_string p) ≡ record p { is_current = is_empty p.components }
unfolding to_string
from_string-to_string p a = read_back p.is_absolute p.components a
