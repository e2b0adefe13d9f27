-- ===== src/Tests/Systems.antt =====
-- The theorems on locks, pipes, disks and tables of open files.
use mankoros.Base.{
  ℕ, ◌+◌, ◌<◌, ◌≤◌, ◌≡◌, ◌⊎◌, inl, not, ◌==◌, refl, if◌then◌else◌, update, none, some, [], ◌∷◌,
  Returns, arith,
}
use mankoros.Lock.Sleep
use mankoros.Lock.Sleep.{System, sleeps, owns, runs_lock, asks, polled, stay, step}
use mankoros.Lock.Sleepers.{IsSound, start-IsSound, Steps-IsSound}
use mankoros.Lock.Spin
use mankoros.Lock.Spin.{Mutex, exchanging}
use mankoros.Lock.Spinners.{harts-exclude, false_alarm, false_alarm_correct}
use mankoros.Pipe
use mankoros.Pipe.Stream
use mankoros.Pipe.Stream.{History, IsStream, awaits_bytes, new-IsStream}
use mankoros.BTreeMap
use mankoros.Disk
use mankoros.Disk.{Disk, block_size, size}
use mankoros.Disk.Bytes.{Written, Failed}
use mankoros.Disk.Whole.{sync_write_at_correct}
use mankoros.Errors.{eio, done, err}
use mankoros.Pid.{IsPooled}
use mankoros.Pipe.{ready, pending}
use mankoros.Process.Fds
use mankoros.Process.Fds.{FdTable, FileDescriptor, new_descriptor, greater_than, exactly}
use mankoros.Process.Table.{Opened, live_of, alloc_correct}
use mankoros.Process.Dup.{DupedAbove, dup_correct, dup-alloc}

-- two tasks ask for the lock, and the first gets it
abbrev asked : System
asked = record Sleep.start { tasks = update Sleep.start.tasks 1 runs_lock }

abbrev locked : System
locked = record {
  inner = (Sleep.poll asked.inner 1).1;
  tasks = update asked.tasks 1 (if (Sleep.poll asked.inner 1).0 then owns else sleeps);
}

start-locked : Sleep.Steps Sleep.start locked
unfolding Sleep.start
start-locked = step (asks 1 refl) (step (polled 1 (inl refl)) stay)

abbrev asked_again : System
asked_again = record locked { tasks = update locked.tasks 2 runs_lock }

abbrev queued : System
queued = record {
  inner = (Sleep.poll asked_again.inner 2).1;
  tasks = update asked_again.tasks 2 (if (Sleep.poll asked_again.inner 2).0 then owns else sleeps);
}

start-queued : Sleep.Steps Sleep.start queued
unfolding Sleep.start Sleep.new Sleep.poll
start-queued =
    step (asks 1 refl)
      (step (polled 1 (inl refl)) (step (asks 2 refl) (step (polled 2 (inl refl)) stay)))

Steps-IsSound_example : IsSound queued
Steps-IsSound_example = Steps-IsSound Sleep.start queued start-queued start-IsSound

-- hart 1 has the lock
abbrev taken : Mutex
taken = Spin.mark (Spin.exchange (Spin.moves Spin.new 1 exchanging) 1) 1

new-taken : Spin.Steps Spin.new taken
unfolding Spin.new Spin.exchange Spin.mark
new-taken =
    Spin.step (Spin.calls 1 refl)
      (Spin.step (Spin.exchanges 1 refl) (Spin.step (Spin.marks 1 refl) Spin.stay))

taken-guarded : taken.harts 1 ≡ Spin.guarded
unfolding Spin.new Spin.exchange Spin.mark
taken-guarded = refl

harts-exclude_example : ◌≡◌ {A = ℕ} 1 1
harts-exclude_example = harts-exclude taken 1 1 new-taken taken-guarded taken-guarded

false_alarm_correct_example :
    Spin.Steps Spin.new (false_alarm 0 1)
    × ((false_alarm 0 1).harts 0 ≡ Spin.panicked)
    × ((false_alarm 0 1).harts 1 ≡ Spin.marking)
false_alarm_correct_example = false_alarm_correct 0 1 (ground arith)

-- a reader waits at the pipe, two bytes are written, and one is read
abbrev idle : History
idle = record { pipe = Pipe.new; written = []; taken = [] }

abbrev awaited : History
awaited = record idle { pipe = (Pipe.poll_read_ready Pipe.new 7).1 }

abbrev with_bytes : History
with_bytes = record {
  pipe = record Pipe.new { buf = 10 ∷ 20 ∷ [] };
  written = 10 ∷ 20 ∷ [];
  taken = [];
}

abbrev half_read : History
half_read = record {
  pipe = record Pipe.new { buf = 20 ∷ [] };
  written = 10 ∷ 20 ∷ [];
  taken = 10 ∷ [];
}

idle-half_read : Stream.Steps idle half_read
unfolding Pipe.new Pipe.poll_read_ready Pipe.poll_read Pipe.poll_write
idle-half_read = Stream.step {i = awaited} (awaits_bytes 7) (
    Stream.step {i = with_bytes} (Stream.writes (10 ∷ 20 ∷ []) {woken = some 7} refl)
      (Stream.step (Stream.reads 1 {woken = none} refl) Stream.stay))

new-IsStream_example : IsStream half_read
unfolding Pipe.new
new-IsStream_example = new-IsStream half_read idle-half_read

-- a disk of two blocks, with the cursor near the end of the first, whose third call is not done
abbrev two_blocks : Disk
two_blocks = record {
  block_id = 0;
  offset = 510;
  num_blocks = 2;
  blocks = λ b i. 0;
  does = λ c. not (c == 2);
  calls = 0;
  torn = λ c i. 255;
}

sync_write_at_correct_example :
    Returns
      (λ (r, d').
        ((510 + 3 ≤ size two_blocks) × (r ≡ done 3) × Written two_blocks 510 3 (1 ∷ 2 ∷ 3 ∷ []) d')
        ⊎ ((size two_blocks < 510 + 3) × ((◌≡◌ {A = ℕ} 3 0) ⊎ (r ≡ err eio)))
        ⊎ ((r ≡ err eio) × Failed two_blocks d'))
      (Disk.sync_write_at two_blocks 510 (1 ∷ 2 ∷ 3 ∷ []))
sync_write_at_correct_example = sync_write_at_correct two_blocks 510 (1 ∷ 2 ∷ 3 ∷ [])

-- the standard files, and file 3
abbrev some_files : FdTable
some_files = record {
  pool = record { next = 4; recycled = [] };
  table =
      (0, new_descriptor 90)
      ∷ (1, new_descriptor 91)
      ∷ (2, new_descriptor 91)
      ∷ (3, new_descriptor 92)
      ∷ [];
  limit = 512;
}

some_files-IsPooled : IsPooled 3 (live_of some_files.table) some_files.pool
some_files-IsPooled = (omega arith, λ n. ground arith)

alloc_correct_example : Returns (Opened some_files (new_descriptor 95)) (Fds.alloc some_files 95)
alloc_correct_example = alloc_correct some_files 95 some_files-IsPooled (omega arith)

abbrev duplicate : FileDescriptor
duplicate = record { file = 92; get_dents_progress = 0; curr = 12 }

dup_correct_example :
    Returns (DupedAbove some_files duplicate 10) (Fds.dup some_files (greater_than 10) duplicate)
dup_correct_example = dup_correct some_files 10 duplicate some_files-IsPooled (omega arith)

none_at_4 : Fds.get some_files 4 ≡ none
unfolding Fds.get BTreeMap.get
none_at_4 = refl

dup-alloc_example :
    Returns
      (λ (r, t1).
        (r ≡ done 4)
        × (Fds.get t1 4 ≡ some duplicate)
        × Returns
            (λ (r', t2). (r' ≡ done 4) × (Fds.get t2 4 ≡ some (new_descriptor 95)))
            (Fds.alloc t1 95))
      (Fds.dup some_files (exactly 4) duplicate)
dup-alloc_example = dup-alloc some_files 95 duplicate refl (omega arith) none_at_4 (omega arith)
