-- ===== src/Synthetic/Mutex.antt =====
-- synthetic/src/main.rs: `lock` and `unlock` of any number of threads over one word, an atomic
-- operation or a system call to a step.
use whyslow.Base.{ℕ, ◌≡◌, ◌≢◌, ◌==◌, if◌then◌else◌}

-- Where a thread is.
pub data Pc : Type 0 where
  outside : Pc  -- in neither function
  entering : Pc  -- in `lock`, before `compare_exchange`
  retrying : Pc  -- in the loop of `lock`, before `swap`
  calling : Pc  -- in the loop of `lock`, before `futex_wait`
  asleep : Pc  -- in `futex_wait`, put to sleep by the kernel
  holding : Pc  -- behind `lock`, up to the `swap` of `unlock`
  notifying : Pc  -- in `unlock`, before `futex_wake`

pub record Mutex : Type 0 where
  pub word : ℕ
  pub at : ℕ → Pc

abbrev pub put : ℕ → Pc → (ℕ → Pc) → ℕ → Pc
put t p at u = if u == t then p else at u

abbrev pub moved : Mutex → ℕ → ℕ → Pc → Mutex
moved s word t p = record { word = word; at = put t p s.at }

-- The kernel compares the word and puts the thread to sleep in one step; a thread can come back from
-- its sleep without a wake, as after a signal.
pub data Step (s : Mutex) : Mutex → Type 0 where
  calls_lock : (t : ℕ) → s.at t ≡ outside → Step s (moved s s.word t entering)
  exchanges : (t : ℕ) → s.at t ≡ entering → s.word ≡ 0 → Step s (moved s 1 t holding)
  exchange_fails : (t : ℕ) → s.at t ≡ entering → s.word ≢ 0 → Step s (moved s s.word t retrying)
  swap_locks : (t : ℕ) → s.at t ≡ retrying → s.word ≡ 0 → Step s (moved s 2 t holding)
  swap_fails : (t : ℕ) → s.at t ≡ retrying → s.word ≢ 0 → Step s (moved s 2 t calling)
  falls_asleep : (t : ℕ) → s.at t ≡ calling → s.word ≡ 2 → Step s (moved s s.word t asleep)
  wait_refused : (t : ℕ) → s.at t ≡ calling → s.word ≢ 2 → Step s (moved s s.word t retrying)
  returns : (t : ℕ) → s.at t ≡ asleep → Step s (moved s s.word t retrying)
  unlocks : (t : ℕ) → s.at t ≡ holding → s.word ≢ 2 → Step s (moved s 0 t outside)
  unlocks_contended : (t : ℕ) → s.at t ≡ holding → s.word ≡ 2 → Step s (moved s 0 t notifying)
  wakes :
      (t u : ℕ)
      → s.at t ≡ notifying
      → s.at u ≡ asleep
      → Step s (moved (moved s s.word t outside) s.word u retrying)
  wakes_nobody :
      (t : ℕ) → s.at t ≡ notifying → ((u : ℕ) → s.at u ≢ asleep) → Step s (moved s s.word t outside)

abbrev pub unlocked : Mutex
unlocked = record { word = 0; at = λ t. outside }

pub data Reachable : Mutex → Type 0 where
  at_start : Reachable unlocked
  then_step : {s s' : Mutex} → Reachable s → Step s s' → Reachable s'
