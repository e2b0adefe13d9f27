-- ===== src/Lock/Spin.antt =====
-- src/sync/mutex.rs: Mutex, the lock that spins, as the steps of the harts that lock it. Each step is one
-- access to the shared fields, so the harts interleave between them.
use mankoros.Base.{ℕ, ◌+◌, ◌≡◌, Bool, true, false, ◌==◌, if◌then◌else◌, update}

-- where a hart is: outside of `lock`, before the exchange, after a failed one, waiting, after the exchange,
-- holding the guard, or stopped by a panic
pub data Place : Type 0 where
  outside : Place
  exchanging : Place
  failed : Place
  waiting : ℕ → Place
  marking : Place
  guarded : Place
  panicked : Place

pub record Mutex : Type 0 where
  pub locked : Bool
  pub hart_id : ℕ
  pub harts : ℕ → Place

unfoldable pub new : Mutex
new = record { locked = false; hart_id = 0; harts = λ h. outside }

abbrev pub moves : Mutex → ℕ → Place → Mutex
moves m h p = record m { harts = update m.harts h p }

-- `compare_exchange(false, true)`
unfoldable pub exchange : Mutex → ℕ → Mutex
exchange m h = if m.locked then moves m h failed else record (moves m h marking) { locked = true }

-- the test of `hart_id` after a failed exchange
unfoldable pub check_owner : Mutex → ℕ → Mutex
check_owner m h = moves m h (if h == m.hart_id then panicked else waiting 0)

-- one turn of the inner loop, after `n` turns
unfoldable pub spin : Mutex → ℕ → ℕ → Mutex
spin m h n =
    if m.locked
    then moves m h (if n + 1 == 0x100_0000 then panicked else waiting (n + 1))
    else moves m h exchanging

unfoldable pub mark : Mutex → ℕ → Mutex
mark m h = record (moves m h guarded) { hart_id = h }

unfoldable pub drop_guard : Mutex → ℕ → Mutex
drop_guard m h = record (moves m h outside) { locked = false }

pub data Step : Mutex → Mutex → Type 0 where
  calls : {m : Mutex} (h : ℕ) → m.harts h ≡ outside → Step m (moves m h exchanging)
  exchanges : {m : Mutex} (h : ℕ) → m.harts h ≡ exchanging → Step m (exchange m h)
  checks : {m : Mutex} (h : ℕ) → m.harts h ≡ failed → Step m (check_owner m h)
  spins : {m : Mutex} (h n : ℕ) → m.harts h ≡ waiting n → Step m (spin m h n)
  marks : {m : Mutex} (h : ℕ) → m.harts h ≡ marking → Step m (mark m h)
  drops : {m : Mutex} (h : ℕ) → m.harts h ≡ guarded → Step m (drop_guard m h)

pub data Steps : Mutex → Mutex → Type 0 where
  stay : {m : Mutex} → Steps m m
  step : {m n o : Mutex} → Step m n → Steps n o → Steps m o
