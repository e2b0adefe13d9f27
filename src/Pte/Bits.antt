-- ===== src/Pte/Bits.antt =====
-- An entry as a page number above ten flags: reading it, and the updates of one flag.
use mankoros.Base.{ℕ, ◌+◌, ◌*◌, ◌/◌, ◌%◌, ◌^◌, ◌<◌, ◌≤◌, ◌≡◌, Bool, true, false, ◌==◌, arith}
use mankoros.Pte.Defs.{
  PteFlags, digit, bits_of, has, ppn, flags, set_writable, clear_writable, set_user, clear_user,
  set_shared, clear_shared,
}

digit-le : (b : Bool) → digit b ≤ 1
digit-le true = omega arith
digit-le false = omega arith

digit-has : (n : ℕ) (b : Bool) → n ≡ digit b → (n == 1) ≡ b
digit-has n true h = ground arith
digit-has n false h = ground arith

digit-of_has : (n : ℕ) → digit (n % 2 == 1) ≡ n % 2
digit-of_has n = ground arith

unfoldable pub pack : ℕ → PteFlags → ℕ
unfolding bits_of
pack hi f = hi * 1024 + bits_of f

module _ (f : PteFlags) where
  small :
      (digit f.v ≤ 1)
      × (digit f.r ≤ 1)
      × (digit f.w ≤ 1)
      × (digit f.x ≤ 1)
      × (digit f.u ≤ 1)
      × (digit f.g ≤ 1)
      × (digit f.a ≤ 1)
      × (digit f.d ≤ 1)
      × (digit f.shared ≤ 1)
      × (digit f.rsw2 ≤ 1)
  small = (
    digit-le f.v,
    digit-le f.r,
    digit-le f.w,
    digit-le f.x,
    digit-le f.u,
    digit-le f.g,
    digit-le f.a,
    digit-le f.d,
    digit-le f.shared,
    digit-le f.rsw2,
  )

  pub bits_of-lt : bits_of f < 1024
  unfolding bits_of
  bits_of-lt = omega (arith, small)

module _ (hi : ℕ) (f : PteFlags) where
  pub has_0 : has (pack hi f) 0 ≡ f.v
  unfolding pack bits_of
  has_0 = digit-has _ f.v (omega (arith, small f))

  pub has_1 : has (pack hi f) 1 ≡ f.r
  unfolding pack bits_of
  has_1 = digit-has _ f.r (omega (arith, small f))

  pub has_2 : has (pack hi f) 2 ≡ f.w
  unfolding pack bits_of
  has_2 = digit-has _ f.w (omega (arith, small f))

  pub has_3 : has (pack hi f) 3 ≡ f.x
  unfolding pack bits_of
  has_3 = digit-has _ f.x (omega (arith, small f))

  pub has_4 : has (pack hi f) 4 ≡ f.u
  unfolding pack bits_of
  has_4 = digit-has _ f.u (omega (arith, small f))

  pub has_5 : has (pack hi f) 5 ≡ f.g
  unfolding pack bits_of
  has_5 = digit-has _ f.g (omega (arith, small f))

  pub has_6 : has (pack hi f) 6 ≡ f.a
  unfolding pack bits_of
  has_6 = digit-has _ f.a (omega (arith, small f))

  pub has_7 : has (pack hi f) 7 ≡ f.d
  unfolding pack bits_of
  has_7 = digit-has _ f.d (omega (arith, small f))

  pub has_8 : has (pack hi f) 8 ≡ f.shared
  unfolding pack bits_of
  has_8 = digit-has _ f.shared (omega (arith, small f))

  pub has_9 : has (pack hi f) 9 ≡ f.rsw2
  unfolding pack bits_of
  has_9 = digit-has _ f.rsw2 (omega (arith, small f))

  pub flags-pack : flags (pack hi f) ≡ f
  unfolding flags
  flags-pack = λ i. record {
    v = has_0 i;
    r = has_1 i;
    w = has_2 i;
    x = has_3 i;
    u = has_4 i;
    g = has_5 i;
    a = has_6 i;
    d = has_7 i;
    shared = has_8 i;
    rsw2 = has_9 i;
  }

  pub ppn-pack : ppn (pack hi f) ≡ hi % 2 ^ 44
  unfolding ppn pack bits_of
  ppn-pack = omega (arith, small f)

  pub set_writable-pack : set_writable (pack hi f) ≡ pack hi (record f { w = true })
  unfolding set_writable pack bits_of
  set_writable-pack = ground (arith, has_2)

  pub clear_writable-pack : clear_writable (pack hi f) ≡ pack hi (record f { w = false })
  unfolding clear_writable pack bits_of
  clear_writable-pack = ground (arith, has_2)

  pub set_user-pack : set_user (pack hi f) ≡ pack hi (record f { u = true })
  unfolding set_user pack bits_of
  set_user-pack = ground (arith, has_4)

  pub clear_user-pack : clear_user (pack hi f) ≡ pack hi (record f { u = false })
  unfolding clear_user pack bits_of
  clear_user-pack = ground (arith, has_4)

  pub set_shared-pack : set_shared (pack hi f) ≡ pack hi (record f { shared = true })
  unfolding set_shared pack bits_of
  set_shared-pack = ground (arith, has_8)

  low_pack : pack hi f % 2 ^ 16 ≡ pack (hi % 64) f
  unfolding pack bits_of
  low_pack = omega (arith, small f)

pub clear_shared-pack :
    (hi : ℕ) (f : PteFlags)
    → clear_shared (pack hi f) ≡ pack (hi % 64) (record f { shared = false })
unfolding clear_shared pack bits_of
clear_shared-pack hi f = ground (arith, low_pack hi f, has_8 (hi % 64) f)

pub pack-flags : (n : ℕ) → pack (n / 1024) (flags n) ≡ n
unfolding pack bits_of flags
pack-flags n = omega (
  arith,
  digit-of_has (n / 2 ^ 0),
  digit-of_has (n / 2 ^ 1),
  digit-of_has (n / 2 ^ 2),
  digit-of_has (n / 2 ^ 3),
  digit-of_has (n / 2 ^ 4),
  digit-of_has (n / 2 ^ 5),
  digit-of_has (n / 2 ^ 6),
  digit-of_has (n / 2 ^ 7),
  digit-of_has (n / 2 ^ 8),
  digit-of_has (n / 2 ^ 9),
)
