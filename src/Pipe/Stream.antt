-- ===== src/Pipe/Stream.antt =====
-- A pipe is a stream of bytes with a bounded buffer, and the task whose waker it records waits for something.
-- A waker that a later one replaces is lost.
use mankoros.Base.{
  ℕ, ◌-◌, ◌≤◌, ◌<◌, ◌≡◌, refl, sym, ap, ◌∙◌, Option, none, some, List, [], ◌∷◌, ◌++◌, ◌==◌, length,
  length-append, min, ok, arith, ◌⊎◌, inl, inr, Bool-cases, take, drop, append_assoc, append_nil,
  take-drop, length-take, length-drop, ok-injective,
}
use mankoros.Pipe.Defs.{
  max_pipe_size, Pipe, new, poll_read_ready, poll_write_ready, poll_read, poll_write, drop_read_end,
  drop_write_end,
}
use mankoros.Pipe.Transfer.{
  poll_read_correct, poll_write_correct, poll_read-nothing, poll_read-panics, poll_write-nothing,
  poll_write-panics,
}

-- the pipe, with all bytes that were written to it and all that were read
pub record History : Type 0 where
  pub pipe : Pipe
  pub written : List ℕ
  pub taken : List ℕ

-- what the ends do with the pipe
pub data Step : History → History → Type 0 where
  awaits_bytes :
      {h : History} (waker : ℕ) → Step h (record h { pipe = (poll_read_ready h.pipe waker).1 })
  awaits_room :
      {h : History} (waker : ℕ) → Step h (record h { pipe = (poll_write_ready h.pipe waker).1 })
  reads :
      {h : History} (len : ℕ) {bytes : List ℕ} {p : Pipe} {woken : Option ℕ}
      → poll_read h.pipe len ≡ ok (bytes, p, woken)
      → Step h (record h { pipe = p; taken = h.taken ++ bytes })
  writes :
      {h : History} (bytes : List ℕ) {n : ℕ} {p : Pipe} {woken : Option ℕ}
      → poll_write h.pipe bytes ≡ ok (n, p, woken)
      → Step h (record h { pipe = p; written = h.written ++ take n bytes })
  reader_leaves : {h : History} → Step h (record h { pipe = (drop_read_end h.pipe).0 })
  writer_leaves : {h : History} → Step h (record h { pipe = (drop_write_end h.pipe).0 })

pub data Steps : History → History → Type 0 where
  stay : {h : History} → Steps h h
  step : {h i j : History} → Step h i → Steps i j → Steps h j

-- What was written is what was read and what is in the buffer, in order; the buffer has its size at most; the
-- reader whose waker is recorded waits at an empty pipe only, and such a writer at a full one only.
pub record IsStream (h : History) : Type 0 where
  pub ordered : h.written ≡ h.taken ++ h.pipe.buf
  pub bounded : length h.pipe.buf ≤ max_pipe_size
  pub reader_waits : (h.pipe.read_waker ≡ none) ⊎ (h.pipe.buf ≡ [])
  pub writer_waits : (h.pipe.write_waker ≡ none) ⊎ (length h.pipe.buf ≡ max_pipe_size)

reads-IsStream :
    (h : History) (len : ℕ) (bytes : List ℕ) (p : Pipe) (woken : Option ℕ)
    → poll_read h.pipe len ≡ ok (bytes, p, woken)
    → IsStream h
    → IsStream (record h { pipe = p; taken = h.taken ++ bytes })
reads-IsStream h len bytes p woken e i = elim (Bool-cases (length h.pipe.buf == 0)) [
  | inl empty ↦ let z = poll_read-panics h.pipe len (ground (arith, empty)) in absurd (cc (e, z))
  | inr some_ ↦ elim (Bool-cases (len == 0)) [
    | inl nothing ↦
        let z : len ≡ 0 = ground (arith, nothing) in
        let r =
          ok-injective e
            (ap (poll_read h.pipe) z ∙ poll_read-nothing h.pipe (ground (arith, some_))) in
        let rb : bytes ≡ [] = ap (λ t. t.0) r in
        let rp : p ≡ h.pipe = ap (λ t. t.1) r in rw (rp, rb, append_nil h.taken) i
    | inr more ↦
        let n = min (length h.pipe.buf) len in
        let r =
          ok-injective e
            (poll_read_correct h.pipe len (ground (arith, some_)) (ground (arith, more))) in
        let rb : bytes ≡ take n h.pipe.buf = ap (λ t. t.0) r in
        let rp : p ≡ record h.pipe { buf = drop n h.pipe.buf; write_waker = none } =
          ap (λ t. t.1) r in
        rw (rp, rb)
          (record {
            ordered =
                i.ordered
                ∙ ap (λ l. h.taken ++ l) (sym (take-drop n h.pipe.buf))
                ∙ sym (append_assoc h.taken (take n h.pipe.buf) (drop n h.pipe.buf));
            bounded = omega (arith, i.bounded, length-drop n h.pipe.buf);
            reader_waits = elim i.reader_waits [
              | inl none_ ↦ inl none_
              | inr empty ↦ let z = ap length empty in absurd (ground (arith, some_, z))
            ];
            writer_waits = inl refl;
          })
  ]
]

writes-IsStream :
    (h : History) (bytes : List ℕ) (n : ℕ) (p : Pipe) (woken : Option ℕ)
    → poll_write h.pipe bytes ≡ ok (n, p, woken)
    → IsStream h
    → IsStream (record h { pipe = p; written = h.written ++ take n bytes })
writes-IsStream h bytes n p woken e i = elim (Bool-cases (length h.pipe.buf == max_pipe_size)) [
  | inl full ↦ let z = poll_write-panics h.pipe bytes (ground (arith, full)) in absurd (cc (e, z))
  | inr room ↦
      let less : length h.pipe.buf < max_pipe_size = ground (arith, room, i.bounded) in
      elim (Bool-cases (length bytes == 0)) [
        | inl nothing ↦
            let r =
              ok-injective e (poll_write-nothing h.pipe bytes less (ground (arith, nothing))) in
            let rn : n ≡ 0 = ap (λ t. t.0) r in
            let rp : p ≡ h.pipe = ap (λ t. t.1) r in rw (rp, rn, append_nil h.written) i
        | inr more ↦
            let k = min (max_pipe_size - length h.pipe.buf) (length bytes) in
            let r = ok-injective e (poll_write_correct h.pipe bytes less (ground (arith, more))) in
            let rn : n ≡ k = ap (λ t. t.0) r in
            let rp : p ≡ record h.pipe { buf = h.pipe.buf ++ take k bytes; read_waker = none } =
              ap (λ t. t.1) r in
            let l = length-append h.pipe.buf (take k bytes) in
            rw (rp, rn)
              (record {
                ordered =
                    ap (λ w. w ++ take k bytes) i.ordered
                    ∙ append_assoc h.taken h.pipe.buf (take k bytes);
                bounded = omega (arith, l, length-take k bytes (omega arith), less);
                reader_waits = inl refl;
                writer_waits = elim i.writer_waits [
                  | inl none_ ↦ inl none_
                  | inr full ↦ absurd (omega (arith, full, less))
                ];
              })
      ]
]

nil-of_length : (xs : List ℕ) → length xs ≡ 0 → xs ≡ []
nil-of_length [] h = refl
nil-of_length (x ∷ xs) h = absurd (omega arith)

-- a poll changes nothing, or leaves its waker at a pipe that has nothing for it
poll_read_ready-cases :
    (p : Pipe) (w : ℕ)
    → ((poll_read_ready p w).1 ≡ p)
      ⊎ ((p.buf ≡ []) × ((poll_read_ready p w).1 ≡ record p { read_waker = some w }))
unfolding poll_read_ready
poll_read_ready-cases p w = elim (Bool-cases (length p.buf == 0)) [
  | inl empty ↦ elim (Bool-cases p.is_closed) [
    | inl closed ↦ inl (simp (empty, closed))
    | inr opened ↦ inr (nil-of_length p.buf (ground (arith, empty)), simp (empty, opened))
  ]
  | inr some_ ↦ inl (simp some_)
]

poll_write_ready-cases :
    (p : Pipe) (w : ℕ)
    → ((poll_write_ready p w).1 ≡ p)
      ⊎ ((max_pipe_size ≤ length p.buf)
          × ((poll_write_ready p w).1 ≡ record p { write_waker = some w }))
unfolding poll_write_ready
poll_write_ready-cases p w = elim (Bool-cases p.is_closed) [
  | inl closed ↦ inl (simp closed)
  | inr opened ↦ elim (Bool-cases (max_pipe_size - length p.buf == 0)) [
    | inl full ↦ inr (ground (arith, full), simp (opened, full))
    | inr room ↦ inl (simp (opened, room))
  ]
]

Step-IsStream : (h k : History) → Step h k → IsStream h → IsStream k
unfolding drop_read_end drop_write_end
Step-IsStream h k (awaits_bytes w) i = elim (poll_read_ready-cases h.pipe w) [
  | inl same ↦ rw same i
  | inr (empty, waits) ↦ rw waits (record {
    ordered = i.ordered;
    bounded = i.bounded;
    reader_waits = inr empty;
    writer_waits = i.writer_waits;
  })
]
Step-IsStream h k (awaits_room w) i = elim (poll_write_ready-cases h.pipe w) [
  | inl same ↦ rw same i
  | inr (full, waits) ↦ rw waits (record {
    ordered = i.ordered;
    bounded = i.bounded;
    reader_waits = i.reader_waits;
    writer_waits = inr (omega (arith, full, i.bounded));
  })
]
Step-IsStream h k (reads len e) i = reads-IsStream h len _ _ _ e i
Step-IsStream h k (writes bytes e) i = writes-IsStream h bytes _ _ _ e i
Step-IsStream h k reader_leaves i = record {
  ordered = i.ordered;
  bounded = i.bounded;
  reader_waits = i.reader_waits;
  writer_waits = inl refl;
}
Step-IsStream h k writer_leaves i = record {
  ordered = i.ordered;
  bounded = i.bounded;
  reader_waits = inl refl;
  writer_waits = i.writer_waits;
}

Steps-IsStream : (h k : History) → Steps h k → IsStream h → IsStream k
Steps-IsStream h k stay i = i
Steps-IsStream h k (step {i = m} p q) i = Steps-IsStream m k q (Step-IsStream h m p i)

-- Through any uses of its ends, what was written to a new pipe is what was read from it and then
-- what is in its buffer, in this order; the buffer has at most its size; and the reader whose waker
-- is recorded sleeps at an empty pipe only, the writer whose waker is recorded at a full one only.
-- Nothing is said of a task whose waker a later one replaced.
pub new-IsStream :
    (h : History) → Steps (record { pipe = new; written = []; taken = [] }) h → IsStream h
unfolding new
new-IsStream h p = Steps-IsStream _ h p (record {
  ordered = refl;
  bounded = omega arith;
  reader_waits = inl refl;
  writer_waits = inl refl;
})
