-- ===== src/Timer/Timeout.antt =====
-- A future with a time limit and the queue of the sleeping tasks together.
use mankoros.Base.{
  ℕ, ◌≤◌, ◌<◌, ◌≡◌, refl, ap, true, false, none, List, [], ◌∷◌, All, leb, Returns, Returns-map,
  arith,
}
use mankoros.Pipe.{ready, pending}
use mankoros.Timer.Sleep.{Node, SleepFuture, push, poll, wake_ready}
use mankoros.Timer.Wake.{count, IsAfter, wake_ready_correct}

count-IsAfter :
    (x : Node) (time : ℕ) (ns : List Node)
    → x.wake_up_time ≤ time
    → All (IsAfter time) ns
    → count x ns ≡ 0
count-IsAfter x time [] h l = refl
count-IsAfter x time (n ∷ ns) h l =
    let rest = count-IsAfter x time ns h l.1 in ground (arith, rest, l.0)

-- what a poll before the time leaves in the queue
abbrev pub node_of : SleepFuture → ℕ → Node
node_of f waker = record { wake_up_time = f.wake_up_time; waker = waker }

module _ {A : Type 0} where
  poll-early :
      (f : SleepFuture) (now waker : ℕ) (heap : List Node)
      → f.is_done ≡ false
      → f.is_registered ≡ false
      → now < f.wake_up_time
      → poll {A = A} pending f now waker heap
        ≡ (pending, record f { is_registered = true }, node_of f waker ∷ heap)
  unfolding poll push
  poll-early f now waker heap d r h =
      let late : leb f.wake_up_time now ≡ false = ground (arith, h) in simp (d, r, late)

  poll-late :
      (f : SleepFuture) (now waker : ℕ) (heap : List Node)
      → f.is_done ≡ false
      → f.wake_up_time ≤ now
      → poll {A = A} pending f now waker heap ≡ (ready none, record f { is_done = true }, heap)
  unfolding poll
  poll-late f now waker heap d h =
      let late : leb f.wake_up_time now ≡ true = ground (arith, h) in simp (d, late)

  -- A future with a time limit that is polled first before that time, with the inner future
  -- pending, is pending and in the queue; each tick at or after the time wakes its task, and a poll
  -- at or after the time, with the inner future pending, is ready without a value.
  pub timeout_correct :
      (f : SleepFuture) (now later waker : ℕ) (heap : List Node)
      → f.is_done ≡ false
      → f.is_registered ≡ false
      → now < f.wake_up_time
      → f.wake_up_time ≤ later
      → ((poll {A = A} pending f now waker heap).0 ≡ pending)
        × Returns
            (λ (woken, left). 0 < count (node_of f waker) woken)
            (wake_ready later (poll {A = A} pending f now waker heap).2)
        × ((poll {A = A} pending (poll {A = A} pending f now waker heap).1 later waker []).0
            ≡ ready none)
  timeout_correct f now later waker heap d r h l = rw (poll-early f now waker heap d r h) (
    refl,
    Returns-map (wake_ready_correct later (node_of f waker ∷ heap))
        (λ (woken, left) (c, due, o, after).
          let gone = count-IsAfter (node_of f waker) later left l after in
          let one : 1 ≤ count (node_of f waker) (node_of f waker ∷ heap) = ground arith in
          omega (arith, c (node_of f waker), gone, one)),
    ap (λ t. t.0) (poll-late (record f { is_registered = true }) later waker [] d l),
  )
