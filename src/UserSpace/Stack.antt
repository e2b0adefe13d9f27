-- ===== src/UserSpace/Stack.antt =====
-- src/process/user_space/mod.rs: `init_stack`, the stack of a new program. The memory is a function from addresses
-- to bytes, and a string is the list of its bytes.
use mankoros.Base.{
  ℕ, zero, suc, ◌+◌, ◌*◌, ◌/◌, ◌%◌, ◌==◌, List, [], ◌∷◌, update, length, Run, ok, ◌>>=◌, ◌>>◌,
  assert, sub_usize,
}

-- the stack pointer, and the memory
pub record Stack : Type 0 where
  pub sp : ℕ
  pub mem : ℕ → ℕ

abbrev pub put_string : (ℕ → ℕ) → ℕ → List ℕ → ℕ → ℕ
put_string mem a [] = update mem a 0
put_string mem a (c ∷ s) = put_string (update mem a c) (a + 1) s

-- the `n` bytes of a number from the lowest on
abbrev pub put_bytes : (ℕ → ℕ) → ℕ → ℕ → ℕ → ℕ → ℕ
put_bytes mem a zero v = mem
put_bytes mem a (suc n) v = put_bytes (update mem a (v % 256)) (a + 1) n (v / 256)

unfoldable pub push_str : Stack → List ℕ → Run (ℕ × Stack)
push_str st s = sub_usize st.sp (length s + 1) >>= λ sp.
    ok (sp, record { sp = sp; mem = put_string st.mem sp s })

unfoldable pub push_usize : Stack → ℕ → Run Stack
push_usize st v = sub_usize st.sp 8 >>= λ sp. ok (record { sp = sp; mem = put_bytes st.mem sp 8 v })

pub record AuxElement : Type 0 where
  pub aux_type : ℕ
  pub aux_value : ℕ

unfoldable pub push_aux_elm : Stack → AuxElement → Run Stack
push_aux_elm st elm = sub_usize st.sp 16 >>= λ sp. ok (record {
  sp = sp;
  mem = put_bytes (put_bytes st.mem sp 8 elm.aux_type) (sp + 8) 8 elm.aux_value;
})

-- `*sp = (*sp - 1) & !0xf`
unfoldable pub align16 : Stack → Run Stack
align16 st = sub_usize st.sp 1 >>= λ sp. ok (record st { sp = sp / 16 * 16 })

-- the elements of a list before another, in the reverse order
abbrev pub reversed_onto : {A : Type 0} → List A → List A → List A
reversed_onto [] ys = ys
reversed_onto (x ∷ xs) ys = reversed_onto xs (x ∷ ys)

-- the pointers to the strings, in the order they are pushed
unfoldable pub push_strs : Stack → List (List ℕ) → Run (List ℕ × Stack)
push_strs st [] = ok ([], st)
push_strs st (s ∷ ss) =
    push_str st s >>= λ (p, st1). push_strs st1 ss >>= λ (ps, st2). ok (p ∷ ps, st2)

unfoldable pub push_usizes : Stack → List ℕ → Run Stack
push_usizes st [] = ok st
push_usizes st (v ∷ vs) = push_usize st v >>= λ st1. push_usizes st1 vs

unfoldable pub push_aux : Stack → List AuxElement → Run Stack
push_aux st [] = ok st
push_aux st (e ∷ es) = push_aux_elm st e >>= λ st1. push_aux st1 es

-- "RISC-V64"
abbrev pub platform : List ℕ
platform = 0x52 ∷ 0x49 ∷ 0x53 ∷ 0x43 ∷ 0x2d ∷ 0x56 ∷ 0x36 ∷ 0x34 ∷ []

-- "Meow~ O4 here;D"
abbrev pub rand_bytes : List ℕ
rand_bytes =
    0x4d ∷ 0x65 ∷ 0x6f ∷ 0x77 ∷ 0x7e ∷ 0x20 ∷ 0x4f ∷ 0x34 ∷ 0x20 ∷ 0x68 ∷ 0x65 ∷ 0x72 ∷ 0x65 ∷ 0x3b
    ∷ 0x44 ∷ []

abbrev pub null : AuxElement
null = record { aux_type = 0; aux_value = 0 }

-- the stack, `argc`, and the arrays of the pointers to the arguments and to the environment
pub record Started : Type 0 where
  pub stack : Stack
  pub argc : ℕ
  pub arg_ptr_ptr : ℕ
  pub env_ptr_ptr : ℕ

-- the name of the platform, the random bytes and the auxiliary vector
unfoldable pub push_info : Stack → List AuxElement → Run Stack
push_info st auxv = do
  (_, st1) ← push_str st platform
  (_, st2) ← push_str st1 rand_bytes
  st3 ← align16 st2
  st4 ← push_aux_elm st3 null
  push_aux st4 (reversed_onto auxv [])

-- an array of pointers, with a 0 behind it
unfoldable pub push_array : Stack → List ℕ → Run Stack
push_array st ptrs = push_usize st 0 >>= λ st1. push_usizes st1 ptrs

-- what follows the strings on the stack
unfoldable pub push_tables : Stack → List ℕ → List ℕ → ℕ → List AuxElement → Run Started
push_tables st env_ptrs arg_ptrs argc auxv = do
  st1 ← push_info st auxv
  st2 ← push_array st1 env_ptrs
  st3 ← push_array st2 arg_ptrs
  st4 ← push_usize st3 argc
  ok (record { stack = st4; argc = argc; arg_ptr_ptr = st3.sp; env_ptr_ptr = st2.sp })

unfoldable pub init_stack : Stack → List (List ℕ) → List (List ℕ) → List AuxElement → Run Started
init_stack st args envp auxv = do
  assert (st.sp % 16 == 0)
  (env_ptrs, st1) ← push_strs st (reversed_onto envp [])
  (arg_ptrs, st2) ← push_strs st1 (reversed_onto args [])
  push_tables st2 env_ptrs arg_ptrs (length args) auxv
