-- ===== src/UserSpace/Arrays.antt =====
-- The strings and the arrays of pointers on the stack of a new program.
use mankoros.Base.{
  append_nil, ℕ, ◌+◌, ◌*◌, ◌%◌, ◌^◌, ◌≤◌, ◌<◌, ◌≡◌, refl, ◌∙◌, List, [], ◌∷◌, ◌++◌, length,
  sub_usize-ok, Returns, returns, Returns-bind, Returns-map, arith,
}
use mathlib.Core.Path.{subst}
use mankoros.UserSpace.Stack.{
  Stack, AuxElement, push_strs, push_usizes, push_aux, reversed_onto, align16, push_array,
}
use mankoros.UserSpace.Pushes.{
  HasStrings, AreStrings, no_strings, one_more, HasStrings-IsKept, AreStrings-IsKept,
  HasString-IsKept, IsPushed, IsPushed-trans, push_str-IsPushed, push_usize-IsPushed,
  push_aux_elm-IsPushed,
}

-- the bytes of the strings, with a 0 behind each
abbrev pub size_of : List (List ℕ) → ℕ
size_of [] = 0
size_of (s ∷ ss) = length s + 1 + size_of ss

pub push_strs-AreStrings :
    (st : Stack) (ss : List (List ℕ))
    → size_of ss ≤ st.sp
    → st.sp < 2 ^ 64
    → Returns
        (λ (ps, st'). AreStrings st'.sp st'.mem ps ss × IsPushed (size_of ss) st st')
        (push_strs st ss)
unfolding push_strs
push_strs-AreStrings st [] h w = returns (no_strings, (omega arith, λ a l. refl))
push_strs-AreStrings st (s ∷ ss) h w =
    Returns-bind (push_str-IsPushed st s (omega arith)) (λ (p, st1) (e, t, q).
      Returns-bind (push_strs-AreStrings st1 ss (omega (arith, q.0)) (omega (arith, q.0)))
        (λ (ps, st2) (are, r). returns (
          one_more (omega (arith, e, r.0)) (omega (arith, e, q.0))
              (HasString-IsKept st1.mem st2.mem st1.sp p s r.1 (omega (arith, e)) t) are,
          IsPushed-trans (length s + 1) (size_of ss) st st1 st2 q r,
        )))

pub push_usizes-HasStrings :
    (st : Stack) (low : ℕ) (ps : List ℕ) (ss tail : List (List ℕ))
    → st.sp ≤ low
    → AreStrings low st.mem ps ss
    → HasStrings low st.mem st.sp tail
    → 8 * length ss ≤ st.sp
    → Returns
        (λ st'.
          HasStrings low st'.mem st'.sp (reversed_onto ss tail) × IsPushed (8 * length ss) st st')
        (push_usizes st ps)
unfolding push_usizes
push_usizes-HasStrings st low [] (s ∷ ss) tail l none_ h b = elim none_ [ ]
push_usizes-HasStrings st low (p ∷ ps) [] tail l none_ h b = elim none_ [ ]
push_usizes-HasStrings st low [] [] tail l no_strings h b = returns (h, (omega arith, λ a m. refl))
push_usizes-HasStrings st low (p ∷ ps) (s ∷ ss) tail l (one_more at w t are) h b =
    Returns-bind (push_usize-IsPushed st p (omega arith) w) (λ st1 (e, q).
      let here : st1.sp + 8 ≡ st.sp = q.0 in
      let tail1 = HasStrings-IsKept low st.sp st.mem st1.mem st.sp tail q.1 (omega arith) l h in
      let first : HasStrings low st1.mem st1.sp (s ∷ tail) = (
        omega (arith, e, at),
        rw e (HasString-IsKept st.mem st1.mem st.sp p s q.1 (omega (arith, at)) t),
        rw here tail1,
      ) in
      Returns-map
        (push_usizes-HasStrings st1 low ps ss (s ∷ tail) (omega (arith, here))
          (AreStrings-IsKept low st.sp st.mem st1.mem ps ss q.1 l are) first (omega (arith, here)))
        (λ st2 (f, r).
          (f, (omega (arith, r.0, here), (IsPushed-trans 8 (8 * length ss) st st1 st2 q r).1))))

pub push_aux-IsPushed :
    (st : Stack) (es : List AuxElement)
    → 16 * length es ≤ st.sp
    → Returns (IsPushed (16 * length es) st) (push_aux st es)
unfolding push_aux
push_aux-IsPushed st [] h = returns (omega arith, λ a l. refl)
push_aux-IsPushed st (e ∷ es) h = Returns-bind (push_aux_elm-IsPushed st e (omega arith)) (λ st1 q.
    Returns-map (push_aux-IsPushed st1 es (omega (arith, q.0)))
      (λ st2 r. (omega (arith, q.0, r.0), (IsPushed-trans 16 (16 * length es) st st1 st2 q r).1)))

pub align16-IsAligned :
    (st : Stack)
    → 16 ≤ st.sp
    → Returns
        (λ st'. (st'.sp % 16 ≡ 0) × (st'.sp < st.sp) × (st.sp ≤ st'.sp + 16) × (st'.mem ≡ st.mem))
        (align16 st)
unfolding align16
align16-IsAligned st h =
    rw (sub_usize-ok st.sp 1 (omega arith)) (returns (omega arith, omega arith, omega arith, refl))

pub length-reversed_onto :
    {A : Type 0} (xs ys : List A) → length (reversed_onto xs ys) ≡ length xs + length ys
length-reversed_onto [] ys = omega arith
length-reversed_onto (x ∷ xs) ys = omega (arith, length-reversed_onto xs (x ∷ ys))

pub reversed_onto-reversed_onto :
    {A : Type 0} (xs ys zs : List A)
    → reversed_onto (reversed_onto xs ys) zs ≡ reversed_onto ys (xs ++ zs)
reversed_onto-reversed_onto [] ys zs = refl
reversed_onto-reversed_onto (x ∷ xs) ys zs = reversed_onto-reversed_onto xs (x ∷ ys) zs

pub reversed_twice : {A : Type 0} (xs : List A) → reversed_onto (reversed_onto xs []) [] ≡ xs
reversed_twice xs = reversed_onto-reversed_onto xs [] [] ∙ append_nil xs

pub size_of-reversed_onto :
    (ss ts : List (List ℕ)) → size_of (reversed_onto ss ts) ≡ size_of ss + size_of ts
size_of-reversed_onto [] ts = omega arith
size_of-reversed_onto (s ∷ ss) ts = omega (arith, size_of-reversed_onto ss (s ∷ ts))

pub push_array-HasStrings :
    (st : Stack) (low : ℕ) (ptrs : List ℕ) (strs : List (List ℕ))
    → st.sp ≤ low
    → AreStrings low st.mem ptrs (reversed_onto strs [])
    → 8 * (length strs + 1) ≤ st.sp
    → Returns
        (λ st'. HasStrings low st'.mem st'.sp strs × IsPushed (8 * (length strs + 1)) st st')
        (push_array st ptrs)
unfolding push_array
push_array-HasStrings st low ptrs strs l are h =
    let n = length-reversed_onto strs [] in
    Returns-bind (push_usize-IsPushed st 0 (omega arith) (omega arith)) (λ st1 (zero_, q).
      Returns-map
        (push_usizes-HasStrings st1 low ptrs (reversed_onto strs []) [] (omega (arith, q.0))
          (AreStrings-IsKept low st.sp st.mem st1.mem ptrs (reversed_onto strs []) q.1 l are) zero_
          (omega (arith, q.0, n)))
        (λ st2 (f, r). (
          subst (HasStrings low st2.mem st2.sp) (reversed_twice strs) f,
          (omega (arith, q.0, r.0, n), (IsPushed-trans 8 _ st st1 st2 q r).1),
        )))
