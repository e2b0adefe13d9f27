-- ===== src/Tests/Programs.antt =====
-- The theorems on page tables, sleeping tasks and the stack of a new program.
use mankoros.Base.{
  ℕ, not, ◌&&◌, ◌+◌, ◌*◌, ◌<◌, ◌≡◌, refl, true, false, ◌==◌, if◌then◌else◌, Option, none, some,
  List, [], ◌∷◌, Returns, arith,
}
use mankoros.Address.{page_size}
use mankoros.Pte
use mankoros.PageTable
use mankoros.PageTable.{PageTable, Memory}
use mankoros.PageTable.Fork.{copy_pages_correct}
use mankoros.PageTable.CopyPage.{IsForkable, copied, users, count_frame}
use mankoros.PageTable.Tree.{Place, root, lookup, empty-valid}
use mankoros.PageTable.Refine.{mapped, Implements, run_op, spec_op, Agree, operations-Agree}
use mankoros.Timer.Sleep.{Node, SleepFuture, poll, wake_ready}
use mankoros.Timer.Wake.{count}
use mankoros.Timer.Timeout.{node_of, timeout_correct}
use mankoros.UserSpace.Stack.{Stack, init_stack}
use mankoros.UserSpace.Startup.{IsStarted, init_stack_correct}
use mankoros.Pipe.{ready, pending}

-- an empty page table, and an allocator with two frames for tables
abbrev empty_table : PageTable
empty_table = PageTable.new_with_paddr 0x20_0000

abbrev empty_memory : Memory
empty_memory = record {
  entries = λ a i. 0;
  frames = record { max_memory = 0x8000_0000; ref_cnt = λ p. 0; spare = λ p. true };
  picks = (0x300 * page_size) ∷ (0x301 * page_size) ∷ [];
}

abbrev root_only : ℕ → Option Place
root_only a = if a == 0x20_0000 then some root else none

empty-Implements : Implements empty_table empty_memory root_only (λ n. none)
unfolding PageTable.new_with_paddr lookup
empty-Implements = (
  record { top = refl; down = λ a i n k e f u v. absurd (cc (v, empty-valid)) },
  λ v u. rw empty-valid refl,
)

operations-Agree_example :
    Agree
      (run_op empty_table empty_memory (mapped 0x1000 0x8030_0000 Pte.rwx))
      (spec_op (λ n. none) (mapped 0x1000 0x8030_0000 Pte.rwx))
operations-Agree_example =
    operations-Agree empty_table empty_memory root_only (λ n. none)
      (mapped 0x1000 0x8030_0000 Pte.rwx) empty-Implements
      (omega arith, omega arith, (omega arith, omega arith))
      (
        0x300,
        0x301,
        refl,
        refl,
        (omega arith),
        ((omega arith, omega arith), refl, omega arith, refl),
        ((omega arith, omega arith), refl, omega arith, refl),
      )

-- a table of the last level at 0x3000 with one user page on frame 0x80, and an empty table at 0x5000
abbrev one_page : Memory
one_page = record {
  entries = λ a i. if (a == 0x3000) && (i == 5) then 0x2001f else 0;
  frames = record {
    max_memory = 0x8000_0000;
    ref_cnt = λ p. if p == 0x80 then 1 else 0;
    spare = λ p. not (p == 0x80);
  };
  picks = [];
}

one_page-IsForkable : IsForkable one_page 0x3000 0 512
unfolding Pte.is_valid Pte.is_leaf Pte.is_user Pte.paddr Pte.flags
one_page-IsForkable = record {
  leaves = λ i l v. ground (arith, v);
  counted = λ i l u. ground (arith, u);
  room = λ q. ground arith;
}

copy_pages_correct_example :
    Returns
      (λ m'.
        ((a j : ℕ) → m'.entries a j ≡ copied one_page 0 0 0x3000 0x5000 0 512 a j)
        × ((q : ℕ)
            → m'.frames.ref_cnt q
              ≡ one_page.frames.ref_cnt q + users (one_page.entries 0x3000) 0 512 q))
      (PageTable.copy_pages count_frame 0 0 0x3000 0x5000 0 512 one_page)
copy_pages_correct_example =
    copy_pages_correct one_page 0 0 0x3000 0x5000 0 512 (ground arith) one_page-IsForkable

-- task 7 waits until the time 150, while task 3 waits until 120
abbrev others_wait : List Node
others_wait = record { wake_up_time = 120; waker = 3 } ∷ []

abbrev limited : SleepFuture
limited = record { wake_up_time = 150; is_done = false; is_registered = false }

timeout_correct_example :
    ((poll {A = ℕ} pending limited 100 7 others_wait).0 ≡ pending)
    × Returns
        (λ (woken, left). 0 < count (node_of limited 7) woken)
        (wake_ready 151 (poll {A = ℕ} pending limited 100 7 others_wait).2)
    × ((poll {A = ℕ} pending (poll {A = ℕ} pending limited 100 7 others_wait).1 151 7 []).0
        ≡ ready none)
timeout_correct_example =
    timeout_correct limited 100 151 7 others_wait refl refl (omega arith) (omega arith)

-- a program with two arguments and one variable
abbrev fresh_stack : Stack
fresh_stack = record { sp = 0x1_0000; mem = λ a. 0 }

init_stack_correct_example :
    Returns
      (IsStarted 0x1_0000 ((108 ∷ 115 ∷ []) ∷ (47 ∷ []) ∷ []) ((65 ∷ 61 ∷ 49 ∷ []) ∷ []))
      (init_stack fresh_stack ((108 ∷ 115 ∷ []) ∷ (47 ∷ []) ∷ []) ((65 ∷ 61 ∷ 49 ∷ []) ∷ []) [])
init_stack_correct_example =
    init_stack_correct fresh_stack ((108 ∷ 115 ∷ []) ∷ (47 ∷ []) ∷ []) ((65 ∷ 61 ∷ 49 ∷ []) ∷ []) []
      refl (omega arith) (omega arith)
