-- ===== src/Pipe/Transfer.antt =====
-- What one read and one write move.
use mankoros.Base.{
  take, drop, append_assoc, append_nil, ℕ, zero, suc, ◌-◌, ◌≤◌, ◌<◌, ◌≡◌, refl, sym, ap, ◌∙◌, none,
  List, [], ◌∷◌, ◌++◌, length, min, ok, panic, arith,
}
use mankoros.Pipe.Defs.{max_pipe_size, Pipe, dequeue, poll_read, push_bytes, poll_write}

pub dequeue-take :
    (n : ℕ) (buf : List ℕ) → n ≤ length buf → dequeue n buf ≡ ok (take n buf, drop n buf)
dequeue-take zero buf h = refl
dequeue-take (suc n) [] h = absurd (omega arith)
dequeue-take (suc n) (b ∷ buf) h = rw (dequeue-take n buf (omega arith)) refl

pub push_bytes-take :
    (n : ℕ) (bytes buf : List ℕ)
    → n ≤ length bytes
    → push_bytes n bytes buf ≡ ok (buf ++ take n bytes)
push_bytes-take zero bytes buf h = ap ok (sym (append_nil buf))
push_bytes-take (suc n) [] buf h = absurd (omega arith)
push_bytes-take (suc n) (b ∷ bytes) buf h =
    let again = push_bytes-take n bytes (buf ++ (b ∷ [])) (omega arith) in
    let moved = append_assoc buf (b ∷ []) (take n bytes) in again ∙ ap ok moved

-- A read of a pipe with bytes does not panic: it takes the oldest ones, as many as there are and are
-- asked for, and wakes the writer if it takes any.
pub poll_read_correct :
    (p : Pipe) (len : ℕ)
    → 0 < length p.buf
    → 0 < len
    → poll_read p len
      ≡ ok (
        take (min (length p.buf) len) p.buf,
        record p { buf = drop (min (length p.buf) len) p.buf; write_waker = none },
        p.write_waker,
      )
unfolding poll_read
poll_read_correct p len h k =
    let e = dequeue-take (min (length p.buf) len) p.buf (omega arith) in ground (arith, e)

pub poll_write_correct :
    (p : Pipe) (bytes : List ℕ)
    → length p.buf < max_pipe_size
    → 0 < length bytes
    → let n = min (max_pipe_size - length p.buf) (length bytes) in
      poll_write p bytes
      ≡ ok (n, record p { buf = p.buf ++ take n bytes; read_waker = none }, p.read_waker)
unfolding poll_write
poll_write_correct p bytes h k =
    let n = min (max_pipe_size - length p.buf) (length bytes) in
    let e = push_bytes-take n bytes p.buf (omega arith) in ground (arith, e)

pub poll_read-nothing : (p : Pipe) → 0 < length p.buf → poll_read p 0 ≡ ok ([], p, none)
unfolding poll_read
poll_read-nothing p h = ground arith

pub poll_read-panics : (p : Pipe) (len : ℕ) → length p.buf ≡ 0 → poll_read p len ≡ panic
unfolding poll_read
poll_read-panics p len h = ground arith

pub poll_write-nothing :
    (p : Pipe) (bytes : List ℕ)
    → length p.buf < max_pipe_size
    → length bytes ≡ 0
    → poll_write p bytes ≡ ok (0, p, none)
unfolding poll_write
poll_write-nothing p bytes h k = ground arith

pub poll_write-panics :
    (p : Pipe) (bytes : List ℕ) → max_pipe_size ≤ length p.buf → poll_write p bytes ≡ panic
unfolding poll_write
poll_write-panics p bytes h = ground arith
