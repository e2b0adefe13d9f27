-- ===== src/Pipe/Defs.antt =====
-- src/fs/npipe.rs: the pipe between its two ends. The ring buffer is of another crate: it is the list of
-- its bytes from the oldest on, which `push` extends while there is room. A waker is the number of its
-- task; a call returns the waker that it wakes.
use mankoros.Base.{
  ℕ, zero, suc, ◌-◌, ◌*◌, Bool, true, false, not, Option, none, some, List, [], ◌∷◌, ◌++◌, ◌==◌,
  if◌then◌else◌, length, min, Run, ok, panic, ◌>>=◌, ◌>>◌, assert,
}
use mankoros.Errors.{epipe, SysResult, done, err}

abbrev pub max_pipe_size : ℕ
max_pipe_size = 4 * 1024

pub record Pipe : Type 0 where
  pub is_closed : Bool
  pub buf : List ℕ
  pub read_waker : Option ℕ
  pub write_waker : Option ℕ

unfoldable pub new : Pipe
new = record { is_closed = false; buf = []; read_waker = none; write_waker = none }

-- what a future says when it is polled
pub data Poll (A : Type 0) : Type 0 where
  ready : A → Poll A
  pending : Poll A

-- PipeReadPollFuture
unfoldable pub poll_read_ready : Pipe → ℕ → Poll (SysResult ℕ) × Pipe
poll_read_ready p waker =
    if not (length p.buf == 0)
    then (ready (done (length p.buf)), p)
    else if p.is_closed
    then (ready (err epipe), p)
    else (pending, record p { read_waker = some waker })

-- PipeWritePollFuture
unfoldable pub poll_write_ready : Pipe → ℕ → Poll (SysResult ℕ) × Pipe
poll_write_ready p waker =
    let space_left = max_pipe_size - length p.buf in
    if p.is_closed
    then (ready (err epipe), p)
    else if not (space_left == 0)
    then (ready (done space_left), p)
    else (pending, record p { write_waker = some waker })

-- the first `n` bytes of the buffer, and the others
abbrev pub dequeue : ℕ → List ℕ → Run (List ℕ × List ℕ)
dequeue zero buf = ok ([], buf)
dequeue (suc n) [] = panic
dequeue (suc n) (b ∷ buf) = dequeue n buf >>= λ (taken, left). ok (b ∷ taken, left)

-- the bytes that are read into a buffer of `len` bytes, the pipe, and the writer that is woken
unfoldable pub poll_read : Pipe → ℕ → Run (List ℕ × Pipe × Option ℕ)
poll_read p len =
    let read = dequeue (min (length p.buf) len) p.buf >>= λ (taken, left).
    ok (taken, record p { buf = left; write_waker = none }, p.write_waker) in
    assert (not (length p.buf == 0)) >> (if len == 0 then ok ([], p, none) else read)

-- `pipe.buf.push(buf[i])` for the first `n` bytes
abbrev pub push_bytes : ℕ → List ℕ → List ℕ → Run (List ℕ)
push_bytes zero bytes buf = ok buf
push_bytes (suc n) [] buf = panic
push_bytes (suc n) (b ∷ bytes) buf = push_bytes n bytes (buf ++ b ∷ [])

-- how many bytes are written, the pipe, and the reader that is woken
unfoldable pub poll_write : Pipe → List ℕ → Run (ℕ × Pipe × Option ℕ)
poll_write p bytes =
    let space_left = max_pipe_size - length p.buf in
    let len = min space_left (length bytes) in
    let written = push_bytes len bytes p.buf >>= λ buf.
    ok (len, record p { buf = buf; read_waker = none }, p.read_waker) in
    assert (not (space_left == 0)) >> (if length bytes == 0 then ok (0, p, none) else written)

unfoldable pub drop_read_end : Pipe → Pipe × Option ℕ
drop_read_end p = (record p { is_closed = true; write_waker = none }, p.write_waker)

unfoldable pub drop_write_end : Pipe → Pipe × Option ℕ
drop_write_end p = (record p { is_closed = true; read_waker = none }, p.read_waker)

-- the drop of the pipe itself
unfoldable pub drop_pipe : Pipe → Run (Unit {0})
drop_pipe p = assert p.is_closed
