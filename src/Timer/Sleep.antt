-- ===== src/Timer/Sleep.antt =====
-- src/timer/async_sleep.rs: the tasks that sleep until a time. The heap of the queue is of the standard library:
-- it is a list of its nodes, of which a least one is peeked at and popped. The clock and what the inner
-- future says are arguments, and a waker is the number of its task.
use mankoros.Base.{
  ℕ, zero, suc, ◌+◌, Bool, true, false, not, Option, none, some, List, [], ◌∷◌, leb, ltb,
  if◌then◌else◌, length, Run, ok, panic, ◌>>=◌, add_usize,
}
use mankoros.Pipe.{Poll, ready, pending}

pub record Node : Type 0 where
  pub wake_up_time : ℕ
  pub waker : ℕ

-- `heap.pop()` of the nodes `n` and `ns`: a node that comes first, and the others
unfoldable pub pop_least : Node → List Node → Node × List Node
pop_least n [] = (n, [])
pop_least n (m ∷ ns) =
    let (least, others) : Node × List Node = pop_least m ns in
    if leb n.wake_up_time least.wake_up_time then (n, m ∷ ns) else (least, n ∷ others)

unfoldable pub push : Node → List Node → List Node
push n heap = n ∷ heap

-- `wake_ready`: the wakers that are woken, in order, and the heap; on fuel for the nodes
unfoldable pub wake_loop : ℕ → ℕ → List Node → Run (List Node × List Node)
wake_loop zero now heap = panic
wake_loop (suc fuel) now [] = ok ([], [])
wake_loop (suc fuel) now (n ∷ ns) =
    let least = (pop_least n ns).0 in
    let again =
      wake_loop fuel now (pop_least n ns).1 >>= λ (woken, left). ok (least ∷ woken, left) in
    if ltb now least.wake_up_time then ok ([], n ∷ ns) else again

unfoldable pub wake_ready : ℕ → List Node → Run (List Node × List Node)
wake_ready now heap = wake_loop (length heap + 1) now heap

pub record SleepFuture : Type 0 where
  pub wake_up_time : ℕ
  pub is_done : Bool
  pub is_registered : Bool

unfoldable pub new : ℕ → SleepFuture
new wake_up_time = record { wake_up_time = wake_up_time; is_done = false; is_registered = false }

-- `with_timeout`, at the time `now`; `wake_after` is the same with a future that is always pending
unfoldable pub with_timeout : ℕ → ℕ → Run SleepFuture
with_timeout ms now = add_usize now ms >>= λ time. ok (new time)

module _ {A : Type 0} where
  -- after the inner future is pending
  abbrev pub poll_time : SleepFuture → ℕ → ℕ → List Node → Poll (Option A) × SleepFuture × List Node
  poll_time f now waker heap =
      if leb f.wake_up_time now
      then (ready none, record f { is_done = true }, heap)
      else if not f.is_registered
      then (
        pending,
        record f { is_registered = true },
        push (record { wake_up_time = f.wake_up_time; waker = waker }) heap,
      )
      else (pending, f, heap)

  abbrev pub poll_inner :
      Poll A → SleepFuture → ℕ → ℕ → List Node → Poll (Option A) × SleepFuture × List Node
  poll_inner (ready v) f now waker heap = (ready (some v), record f { is_done = true }, heap)
  poll_inner pending f now waker heap = poll_time f now waker heap

  unfoldable pub poll :
      Poll A → SleepFuture → ℕ → ℕ → List Node → Poll (Option A) × SleepFuture × List Node
  poll inner f now waker heap =
      if f.is_done then (pending, f, heap) else poll_inner inner f now waker heap
