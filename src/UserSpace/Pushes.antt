-- ===== src/UserSpace/Pushes.antt =====
-- What is pushed on the stack of a new program stays there.
use mankoros.Base.{
  ℕ, zero, suc, ◌+◌, ◌-◌, ◌*◌, ◌/◌, ◌%◌, ◌^◌, ◌≤◌, ◌<◌, ◌≡◌, refl, ◌∙◌, List, [], ◌∷◌, update,
  length, sub_usize-ok, Returns, returns, arith,
}
use mankoros.UserSpace.Stack.{
  Stack, put_string, put_bytes, push_str, push_usize, AuxElement, push_aux_elm,
}

-- the bytes from an address on are as before
abbrev pub IsKept : ℕ → (ℕ → ℕ) → (ℕ → ℕ) → Type 0
IsKept from m m' = (a : ℕ) → from ≤ a → m' a ≡ m a

-- the string stands at the address, with a 0 behind it
abbrev pub HasString : (ℕ → ℕ) → ℕ → List ℕ → Type 0
HasString m a [] = m a ≡ 0
HasString m a (c ∷ s) = (m a ≡ c) × HasString m (a + 1) s

-- the number of `n` bytes at an address
abbrev pub number_at : (ℕ → ℕ) → ℕ → ℕ → ℕ
number_at m a zero = 0
number_at m a (suc n) = m a + 256 * number_at m (a + 1) n

-- pointers to the strings, which stand from `low` on, and a 0 behind the pointers
abbrev pub HasStrings : ℕ → (ℕ → ℕ) → ℕ → List (List ℕ) → Type 0
HasStrings low m a [] = number_at m a 8 ≡ 0
HasStrings low m a (s ∷ ss) =
    (low ≤ number_at m a 8) × HasString m (number_at m a 8) s × HasStrings low m (a + 8) ss

-- the pointers are those of the strings
pub data AreStrings (low : ℕ) (m : ℕ → ℕ) : List ℕ → List (List ℕ) → Type 0 where
  no_strings : AreStrings low m [] []
  one_more :
      {p : ℕ} {s : List ℕ} {ps : List ℕ} {ss : List (List ℕ)}
      → low ≤ p
      → p < 2 ^ 64
      → HasString m p s
      → AreStrings low m ps ss
      → AreStrings low m (p ∷ ps) (s ∷ ss)

put_string-IsKept :
    (m : ℕ → ℕ) (a : ℕ) (s : List ℕ) (b : ℕ) → a + length s < b → put_string m a s b ≡ m b
put_string-IsKept m a [] b h = ground arith
put_string-IsKept m a (c ∷ s) b h =
    let rest = put_string-IsKept (update m a c) (a + 1) s b (omega arith) in ground (arith, rest)

put_string-below : (m : ℕ → ℕ) (a : ℕ) (s : List ℕ) (b : ℕ) → b < a → put_string m a s b ≡ m b
put_string-below m a [] b h = ground arith
put_string-below m a (c ∷ s) b h =
    let rest = put_string-below (update m a c) (a + 1) s b (omega arith) in ground (arith, rest)

put_string-HasString : (m : ℕ → ℕ) (a : ℕ) (s : List ℕ) → HasString (put_string m a s) a s
put_string-HasString m a [] = ground arith
put_string-HasString m a (c ∷ s) = (
  put_string-below (update m a c) (a + 1) s a (omega arith) ∙ ground arith,
  put_string-HasString (update m a c) (a + 1) s,
)

put_bytes-IsKept : (m : ℕ → ℕ) (a n v b : ℕ) → a + n ≤ b → put_bytes m a n v b ≡ m b
put_bytes-IsKept m a zero v b h = refl
put_bytes-IsKept m a (suc n) v b h =
    let rest = put_bytes-IsKept (update m a (v % 256)) (a + 1) n (v / 256) b (omega arith) in
    ground (arith, rest)

put_bytes-below : (m : ℕ → ℕ) (a n v b : ℕ) → b < a → put_bytes m a n v b ≡ m b
put_bytes-below m a zero v b h = refl
put_bytes-below m a (suc n) v b h =
    let rest = put_bytes-below (update m a (v % 256)) (a + 1) n (v / 256) b (omega arith) in
    ground (arith, rest)

-- how large a number of `n` bytes may be
abbrev bytes_mod : ℕ → ℕ
bytes_mod zero = 1
bytes_mod (suc n) = 256 * bytes_mod n

number_at-put_bytes :
    (m : ℕ → ℕ) (a n v : ℕ) → v < bytes_mod n → number_at (put_bytes m a n v) a n ≡ v
number_at-put_bytes m a zero v h = omega arith
number_at-put_bytes m a (suc n) v h =
    let first = put_bytes-below (update m a (v % 256)) (a + 1) n (v / 256) a (omega arith) in
    let here : update m a (v % 256) a ≡ v % 256 = ground arith in
    let rest = number_at-put_bytes (update m a (v % 256)) (a + 1) n (v / 256) (omega arith) in
    omega (arith, first, here, rest)

pub number_at-IsKept :
    (m m' : ℕ → ℕ) (from a n : ℕ) → IsKept from m m' → from ≤ a → number_at m' a n ≡ number_at m a n
number_at-IsKept m m' from a zero k h = refl
number_at-IsKept m m' from a (suc n) k h =
    let rest = number_at-IsKept m m' from (a + 1) n k (omega arith) in omega (arith, k a h, rest)

pub HasString-IsKept :
    (m m' : ℕ → ℕ) (from a : ℕ) (s : List ℕ)
    → IsKept from m m'
    → from ≤ a
    → HasString m a s
    → HasString m' a s
HasString-IsKept m m' from a [] k h e = k a h ∙ e
HasString-IsKept m m' from a (c ∷ s) k h (e, t) =
    (k a h ∙ e, HasString-IsKept m m' from (a + 1) s k (omega arith) t)

pub IsKept-trans :
    (a b : ℕ) (m m1 m2 : ℕ → ℕ) → b ≤ a → IsKept a m m1 → IsKept b m1 m2 → IsKept a m m2
IsKept-trans a b m m1 m2 h k l c d = l c (omega arith) ∙ k c d

pub HasStrings-IsKept :
    (low from : ℕ) (m m' : ℕ → ℕ) (a : ℕ) (ss : List (List ℕ))
    → IsKept from m m'
    → from ≤ a
    → from ≤ low
    → HasStrings low m a ss
    → HasStrings low m' a ss
HasStrings-IsKept low from m m' a [] k h l e = number_at-IsKept m m' from a 8 k h ∙ e
HasStrings-IsKept low from m m' a (s ∷ ss) k h l (b, e, t) =
    let same = number_at-IsKept m m' from a 8 k h in
    (
      omega (arith, same, b),
      rw same (HasString-IsKept m m' from (number_at m a 8) s k (omega (arith, b)) e),
      HasStrings-IsKept low from m m' (a + 8) ss k (omega arith) l t,
    )

pub AreStrings-IsKept :
    (low from : ℕ) (m m' : ℕ → ℕ) (ps : List ℕ) (ss : List (List ℕ))
    → IsKept from m m'
    → from ≤ low
    → AreStrings low m ps ss
    → AreStrings low m' ps ss
AreStrings-IsKept low from m m' _ _ k l no_strings = no_strings
AreStrings-IsKept low from m m' _ _ k l (one_more {p = p} {s = s} {ps = ps} {ss = ss} b w e t) =
    one_more b w (HasString-IsKept m m' from p s k (omega arith) e)
      (AreStrings-IsKept low from m m' ps ss k l t)

pub AreStrings-lower :
    (low below : ℕ) (m : ℕ → ℕ) (ps : List ℕ) (ss : List (List ℕ))
    → below ≤ low
    → AreStrings low m ps ss
    → AreStrings below m ps ss
AreStrings-lower low below m _ _ h no_strings = no_strings
AreStrings-lower low below m _ _ h (one_more {ps = ps} {ss = ss} b w e t) =
    one_more (omega arith) w e (AreStrings-lower low below m ps ss h t)

-- what a push leaves: the stack pointer is lower by the size, and what was on the stack is there
abbrev pub IsPushed : ℕ → Stack → Stack → Type 0
IsPushed size st st' = (st'.sp + size ≡ st.sp) × IsKept st.sp st.mem st'.mem

pub IsPushed-trans :
    (n k : ℕ) (st st1 st2 : Stack)
    → IsPushed n st st1
    → IsPushed k st1 st2
    → IsPushed (n + k) st st2
IsPushed-trans n k st st1 st2 (e, f) (g, h) =
    (omega (arith, e, g), IsKept-trans st.sp st1.sp st.mem st1.mem st2.mem (omega (arith, e)) f h)

pub push_str-IsPushed :
    (st : Stack) (s : List ℕ)
    → length s + 1 ≤ st.sp
    → Returns
        (λ (p, st'). (p ≡ st'.sp) × HasString st'.mem p s × IsPushed (length s + 1) st st')
        (push_str st s)
unfolding push_str
push_str-IsPushed st s h =
    let sp = st.sp - (length s + 1) in
    rw (sub_usize-ok st.sp (length s + 1) h) (
      returns (
        refl,
        put_string-HasString st.mem sp s,
        (omega arith, λ a l. put_string-IsKept st.mem sp s a (omega (arith, l))),
      ))

pub push_usize-IsPushed :
    (st : Stack) (v : ℕ)
    → 8 ≤ st.sp
    → v < 2 ^ 64
    → Returns (λ st'. (number_at st'.mem st'.sp 8 ≡ v) × IsPushed 8 st st') (push_usize st v)
unfolding push_usize
push_usize-IsPushed st v h b = rw (sub_usize-ok st.sp 8 h) (
    returns (
      number_at-put_bytes st.mem (st.sp - 8) 8 v b,
      (omega arith, λ a l. put_bytes-IsKept st.mem (st.sp - 8) 8 v a (omega (arith, l))),
    ))

pub push_aux_elm-IsPushed :
    (st : Stack) (e : AuxElement) → 16 ≤ st.sp → Returns (IsPushed 16 st) (push_aux_elm st e)
unfolding push_aux_elm
push_aux_elm-IsPushed st e h =
    let sp = st.sp - 16 in
    rw (sub_usize-ok st.sp 16 h) (
      returns (
        omega arith,
        λ a l.
            put_bytes-IsKept (put_bytes st.mem sp 8 e.aux_type) (sp + 8) 8 e.aux_value a
              (omega (arith, l))
            ∙ put_bytes-IsKept st.mem sp 8 e.aux_type a (omega (arith, l)),
      ))
