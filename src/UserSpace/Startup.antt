-- ===== src/UserSpace/Startup.antt =====
-- The arguments and the environment of a new program are on its stack.
use mankoros.Base.{
  ℕ, ◌+◌, ◌*◌, ◌%◌, ◌^◌, ◌≤◌, ◌<◌, ◌≡◌, refl, ap, ◌∙◌, ◌==◌, true, List, [], ◌∷◌, length, Returns,
  returns, Returns-bind, Returns-map, arith,
}
use mankoros.UserSpace.Stack.{
  Stack, AuxElement, reversed_onto, platform, rand_bytes, null, Started, push_info, push_tables,
  init_stack,
}
use mankoros.UserSpace.Pushes.{
  IsKept, number_at, HasStrings, AreStrings, IsKept-trans, HasStrings-IsKept, AreStrings-IsKept,
  AreStrings-lower, IsPushed-trans, push_str-IsPushed, push_usize-IsPushed, push_aux_elm-IsPushed,
}
use mankoros.UserSpace.Arrays.{
  size_of, push_strs-AreStrings, push_aux-IsPushed, align16-IsAligned, length-reversed_onto,
  size_of-reversed_onto, push_array-HasStrings,
}

-- the memory of the finished stack, with what `init_stack` returns
pub record IsStarted (sp_init : ℕ) (args envp : List (List ℕ)) (r : Started) : Type 0 where
  pub argc : (r.argc ≡ length args) × (number_at r.stack.mem r.stack.sp 8 ≡ length args)
  pub argv_place : r.arg_ptr_ptr ≡ r.stack.sp + 8
  pub argv : HasStrings r.stack.sp r.stack.mem r.arg_ptr_ptr args
  pub envp_place : r.env_ptr_ptr ≡ r.arg_ptr_ptr + 8 * (length args + 1)
  pub envp_strings : HasStrings r.stack.sp r.stack.mem r.env_ptr_ptr envp
  pub alignment : (r.stack.sp + 8 * (length args + length envp + 3)) % 16 ≡ 0
  pub inside : r.stack.sp ≤ sp_init

IsStarted-raise :
    (a b : ℕ) (args envp : List (List ℕ)) (r : Started)
    → a ≤ b
    → IsStarted a args envp r
    → IsStarted b args envp r
IsStarted-raise a b args envp r h d = record {
  argc = d.argc;
  argv_place = d.argv_place;
  argv = d.argv;
  envp_place = d.envp_place;
  envp_strings = d.envp_strings;
  alignment = d.alignment;
  inside = omega (arith, d.inside);
}

HasStrings-lower :
    (low below : ℕ) (m : ℕ → ℕ) (a : ℕ) (ss : List (List ℕ))
    → below ≤ low
    → HasStrings low m a ss
    → HasStrings below m a ss
HasStrings-lower low below m a [] h e = e
HasStrings-lower low below m a (s ∷ ss) h (l, e, t) =
    (omega (arith, l), e, HasStrings-lower low below m (a + 8) ss h t)

-- what is below the strings and above the arrays
abbrev pub info_size : List AuxElement → ℕ
info_size auxv = 9 + 16 + 16 + 16 * (length auxv + 1)

abbrev IsInfo : Stack → List AuxElement → Stack → Type 0
IsInfo st auxv st' =
    (st'.sp % 16 ≡ 0)
    × (st'.sp < st.sp)
    × (st.sp ≤ st'.sp + info_size auxv)
    × IsKept st.sp st.mem st'.mem

push_info-IsInfo :
    (st : Stack) (auxv : List AuxElement)
    → info_size auxv ≤ st.sp
    → Returns (IsInfo st auxv) (push_info st auxv)
unfolding push_info
push_info-IsInfo st auxv h =
    let n = length-reversed_onto auxv [] in
    Returns-bind (push_str-IsPushed st platform (omega arith)) (λ (p, st1) (e, t, q1).
      Returns-bind (push_str-IsPushed st1 rand_bytes (omega (arith, q1.0)))
        (λ (p', st2) (e', t', q2).
          let strs = IsPushed-trans 9 16 st st1 st2 q1 q2 in
          Returns-bind (align16-IsAligned st2 (omega (arith, strs.0)))
            (λ st3 (al, less, more, same).
              Returns-bind (push_aux_elm-IsPushed st3 null (omega (arith, strs.0, more))) (λ st4 q4.
                Returns-map
                  (push_aux-IsPushed st4 (reversed_onto auxv [])
                    (omega (arith, q4.0, strs.0, more, n)))
                  (λ st5 q5.
                    let aux =
                      IsPushed-trans 16 (16 * length (reversed_onto auxv [])) st3 st4 st5 q4 q5 in
                    let kept : IsKept st3.sp st2.mem st5.mem =
                      λ a k. aux.1 a k ∙ ap (λ m. m a) same in
                    (
                      omega (arith, al, aux.0),
                      omega (arith, less, aux.0, strs.0),
                      omega (arith, aux.0, strs.0, more, n),
                      IsKept-trans st.sp st3.sp st.mem st2.mem st5.mem (omega (arith, less, strs.0))
                          strs.1 kept,
                    ))))))

-- what the tables need below the strings
abbrev pub tables_size : List (List ℕ) → List (List ℕ) → List AuxElement → ℕ
tables_size args envp auxv = info_size auxv + 8 * (length args + length envp + 3)

push_tables-IsStarted :
    (st : Stack) (args envp : List (List ℕ)) (auxv : List AuxElement) (env_ptrs arg_ptrs : List ℕ)
    → st.sp < 2 ^ 64
    → tables_size args envp auxv ≤ st.sp
    → AreStrings st.sp st.mem env_ptrs (reversed_onto envp [])
    → AreStrings st.sp st.mem arg_ptrs (reversed_onto args [])
    → Returns (IsStarted st.sp args envp) (push_tables st env_ptrs arg_ptrs (length args) auxv)
unfolding push_tables
push_tables-IsStarted st args envp auxv env_ptrs arg_ptrs w h ev ar =
    Returns-bind (push_info-IsInfo st auxv (omega arith)) (λ st1 (al, less, more, k1).
      Returns-bind
        (push_array-HasStrings st1 st.sp env_ptrs envp (omega arith)
          (AreStrings-IsKept st.sp st.sp st.mem st1.mem env_ptrs _ k1 (omega arith) ev)
          (omega (arith, more)))
        (λ st2 (f2, q2).
          let k2 = IsKept-trans st.sp st1.sp st.mem st1.mem st2.mem (omega arith) k1 q2.1 in
          Returns-bind
            (push_array-HasStrings st2 st.sp arg_ptrs args (omega (arith, q2.0))
              (AreStrings-IsKept st.sp st.sp st.mem st2.mem arg_ptrs _ k2 (omega arith) ar)
              (omega (arith, q2.0, more)))
            (λ st3 (f3, q3).
              Returns-bind
                (push_usize-IsPushed st3 (length args) (omega (arith, q2.0, q3.0, more))
                  (omega arith))
                (λ st4 (e, q4).
                  let g2 =
                    HasStrings-IsKept st.sp st2.sp st2.mem st3.mem st2.sp envp q3.1 (omega arith)
                      (omega (arith, q2.0)) f2 in
                  let g3 =
                    HasStrings-IsKept st.sp st3.sp st3.mem st4.mem st2.sp envp q4.1
                      (omega (arith, q3.0)) (omega (arith, q2.0, q3.0)) g2 in
                  let a3 =
                    HasStrings-IsKept st.sp st3.sp st3.mem st4.mem st3.sp args q4.1 (omega arith)
                      (omega (arith, q2.0, q3.0)) f3 in
                  let low : st4.sp ≤ st.sp = omega (arith, q2.0, q3.0, q4.0) in
                  returns (record {
                    argc = (refl, e);
                    argv_place = omega (arith, q4.0);
                    argv = HasStrings-lower st.sp st4.sp st4.mem st3.sp args low a3;
                    envp_place = omega (arith, q3.0);
                    envp_strings = HasStrings-lower st.sp st4.sp st4.mem st2.sp envp low g3;
                    alignment = omega (arith, al, q2.0, q3.0, q4.0);
                    inside = low;
                  })))))

-- On a stack that is aligned to 16 bytes and has room, `init_stack` does not panic: on the stack
-- that it leaves stand the number of the arguments, then the array of the pointers to the arguments
-- and the array of those to the environment, in their order and each with a 0 behind it, at the
-- places that it returns, and every pointer leads to its string with a 0 behind it. The stack
-- pointer is 8 times the number of arguments and variables and three below a multiple of 16.
pub init_stack_correct :
    (st : Stack) (args envp : List (List ℕ)) (auxv : List AuxElement)
    → st.sp % 16 ≡ 0
    → st.sp < 2 ^ 64
    → size_of envp + size_of args + tables_size args envp auxv ≤ st.sp
    → Returns (IsStarted st.sp args envp) (init_stack st args envp auxv)
unfolding init_stack
init_stack_correct st args envp auxv al w h =
    let start : (st.sp % 16 == 0) ≡ true = ground arith in
    let n = size_of-reversed_onto envp [] in
    let k = size_of-reversed_onto args [] in
    rw start (
      Returns-bind (push_strs-AreStrings st (reversed_onto envp []) (omega (arith, n)) w)
        (λ (env_ptrs, st1) (ev, q1).
          Returns-bind
            (push_strs-AreStrings st1 (reversed_onto args []) (omega (arith, n, k, q1.0))
              (omega (arith, q1.0)))
            (λ (arg_ptrs, st2) (ar, q2).
              let low : st2.sp ≤ st1.sp = omega (arith, q2.0) in
              let ev2 =
                AreStrings-lower st1.sp st2.sp st2.mem env_ptrs (reversed_onto envp []) low (
                  AreStrings-IsKept st1.sp st1.sp st1.mem st2.mem env_ptrs _ q2.1 (omega arith)
                    ev) in
              Returns-map
                (push_tables-IsStarted st2 args envp auxv env_ptrs arg_ptrs
                  (omega (arith, q1.0, q2.0)) (omega (arith, n, k, q1.0, q2.0)) ev2 ar)
                (λ r d. IsStarted-raise st2.sp st.sp args envp r (omega (arith, q1.0, q2.0)) d))))
