-- ===== src/Base/Panics.antt =====
-- How a call ends: with a value, or by a panic (`panic!`, `unwrap` of nothing, a failed `assert!` or
-- `debug_assert!`, an index out of range, an overflow).
use mathlib.Core.Path.{◌≡◌, refl}
use mathlib.Core.Logic.{◌⊎◌, inl, inr}
use mathlib.Core.Bool.{Bool, true, false}
use mathlib.Core.Option.{Option, none, some}

pub data Run {ℓ} (A : Type ℓ) : Type ℓ where
  ok : A → Run A
  panic : Run A

infixl 5 ◌>>=◌ ◌>>◌
abbrev pub ◌>>=◌ {ℓ κ} : {A : Type ℓ} {B : Type κ} → Run A → (A → Run B) → Run B
ok a >>= f = f a
panic >>= f = panic

abbrev pub ◌>>◌ {ℓ} : {B : Type ℓ} → Run (Unit {0}) → Run B → Run B
m >> k = m >>= λ _. k

abbrev pub assert : Bool → Run (Unit {0})
assert true = ok tt
assert false = panic

abbrev pub unwrap {ℓ} : {A : Type ℓ} → Option A → Run A
unwrap (some a) = ok a
unwrap none = panic

pub Run-cases {ℓ} : {A : Type ℓ} (r : Run A) → ((a : A) × (r ≡ ok a)) ⊎ (r ≡ panic)
Run-cases (ok a) = inl (a, refl)
Run-cases panic = inr refl

-- The call does not panic, and what it returns has the property.
pub data Returns {ℓ κ} {T : Type ℓ} (Post : T → Type κ) : Run T → Type (ℓ ⊔ κ) where
  returns : {t : T} → Post t → Returns Post (ok t)

module _ {ℓ κ} {T : Type ℓ} {Post : T → Type κ} where
  pub Returns-of : {call : Run T} {a : T} → call ≡ ok a → Post a → Returns Post call
  Returns-of e post = rw e (returns post)

  pub Returns-inv : {call : Run T} → Returns Post call → (t : T) × (call ≡ ok t) × Post t
  Returns-inv (returns post) = (_, refl, post)

  pub Returns-map {κ'} :
      {Weaker : T → Type κ'} {call : Run T}
      → Returns Post call
      → ((t : T) → Post t → Weaker t)
      → Returns Weaker call
  Returns-map (returns post) weaken = returns (weaken _ post)

  pub Returns-bind {ℓ' κ'} :
      {U : Type ℓ'} {Then : U → Type κ'} {call : Run T} {rest : T → Run U}
      → Returns Post call
      → ((t : T) → Post t → Returns Then (rest t))
      → Returns Then (call >>= rest)
  Returns-bind (returns post) then_ = then_ _ post

pub ok-injective : {A : Type 0} {r : Run A} {a b : A} → r ≡ ok a → r ≡ ok b → a ≡ b
ok-injective p q = cc
