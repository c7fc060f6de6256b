-- ===== src/Synthetic/Program.antt =====
-- synthetic/src/main.rs: `main` and its two threads, over the mutex.
use whyslow.Base.{ℕ, ◌≡◌, ◌≢◌, Bool, true, false, Option, none, some, ◌==◌, if◌then◌else◌}
use whyslow.Base.Result.{ok}
use whyslow.Synthetic.Read.{SystemAnswers, cold_direct_read, gettid}
use whyslow.Synthetic.Mutex.{
  outside, entering, holding, notifying, Mutex, Step, moved, unlocked, calls_lock, exchanges,
  exchange_fails, swap_locks, swap_fails, falls_asleep, wait_refused, returns, unlocks,
  unlocks_contended, wakes, wakes_nobody,
}

-- Where a thread is. Only the holder reads; it panics if its read fails.
pub data Place : Type 0 where
  unspawned : Place
  starting : Place  -- before its id is stored
  before_lock : Place
  in_lock : Place  -- up to the next statement behind the call
  reading : Place
  before_unlock : Place
  in_unlock : Place
  finished : Place
  panicked : Place

pub data MainPlace : Type 0 where
  spawning_holder : MainPlace
  polling : MainPlace  -- in the loop on `holder_acquired`
  spawning_waiter : MainPlace
  joining_holder : MainPlace
  joining_waiter : MainPlace
  printing : MainPlace
  done : MainPlace
  aborted : MainPlace  -- the holder's panic is found on joining it

abbrev pub holder : ℕ
holder = 0

abbrev pub waiter : ℕ
waiter = 1

pub record Program : Type 0 where
  pub mutex : Mutex
  pub places : ℕ → Place
  pub tids : ℕ → ℕ
  pub holder_acquired : Bool
  pub main : MainPlace
  pub line : Option (ℕ × ℕ)  -- the ids in the line that was printed

abbrev pub set_at : {A : Type 0} → ℕ → A → (ℕ → A) → ℕ → A
set_at t a f u = if u == t then a else f u

abbrev pub placed : Program → ℕ → Place → Program
placed p t place = record p { places = set_at t place p.places }

-- A step inside `lock` or `unlock`, neither a call of `lock` nor the `swap` that `unlock` begins with.
abbrev pub IsInside : {s s' : Mutex} → Step s s' → Type 0
IsInside (calls_lock t e) = ⊥
IsInside (unlocks t e z) = ⊥
IsInside (unlocks_contended t e z) = ⊥
IsInside (exchanges t e z) = Unit
IsInside (exchange_fails t e z) = Unit
IsInside (swap_locks t e z) = Unit
IsInside (swap_fails t e z) = Unit
IsInside (falls_asleep t e z) = Unit
IsInside (wait_refused t e z) = Unit
IsInside (returns t e) = Unit
IsInside (wakes t u e f) = Unit
IsInside (wakes_nobody t e n) = Unit

module _ (answers : SystemAnswers) where
  pub data Runs (p : Program) : Program → Type 0 where
    spawns_holder :
        p.main ≡ spawning_holder → Runs p (record (placed p holder starting) { main = polling })
    stores_tid :
        (t : ℕ)
        → p.places t ≡ starting
        → Runs p (record (placed p t before_lock) { tids = set_at t (gettid answers t) p.tids })
    locks :
        (t : ℕ)
        → p.places t ≡ before_lock
        → p.mutex.at t ≡ outside
        → Runs p (record (placed p t in_lock) { mutex = moved p.mutex p.mutex.word t entering })
    goes_on : {m : Mutex} (step : Step p.mutex m) → IsInside step → Runs p (record p { mutex = m })
    acquires :
        p.places holder ≡ in_lock
        → p.mutex.at holder ≡ holding
        → Runs p (record (placed p holder reading) { holder_acquired = true })
    reads :
        p.places holder ≡ reading
        → cold_direct_read answers ≡ some (ok tt)
        → Runs p (placed p holder before_unlock)
    panics :
        p.places holder ≡ reading
        → cold_direct_read answers ≢ some (ok tt)
        → Runs p (placed p holder panicked)
    acquires_too :
        p.places waiter ≡ in_lock
        → p.mutex.at waiter ≡ holding
        → Runs p (placed p waiter before_unlock)
    unlocks_free :
        (t : ℕ)
        → p.places t ≡ before_unlock
        → p.mutex.at t ≡ holding
        → p.mutex.word ≢ 2
        → Runs p (record (placed p t in_unlock) { mutex = moved p.mutex 0 t outside })
    unlocks_waited :
        (t : ℕ)
        → p.places t ≡ before_unlock
        → p.mutex.at t ≡ holding
        → p.mutex.word ≡ 2
        → Runs p (record (placed p t in_unlock) { mutex = moved p.mutex 0 t notifying })
    ends : (t : ℕ) → p.places t ≡ in_unlock → p.mutex.at t ≡ outside → Runs p (placed p t finished)
    sees :
        p.main ≡ polling → p.holder_acquired ≡ true → Runs p (record p { main = spawning_waiter })
    spawns_waiter :
        p.main ≡ spawning_waiter
        → Runs p (record (placed p waiter starting) { main = joining_holder })
    joins_holder :
        p.main ≡ joining_holder
        → p.places holder ≡ finished
        → Runs p (record p { main = joining_waiter })
    finds_panic :
        p.main ≡ joining_holder → p.places holder ≡ panicked → Runs p (record p { main = aborted })
    joins_waiter :
        p.main ≡ joining_waiter → p.places waiter ≡ finished → Runs p (record p { main = printing })
    prints :
        p.main ≡ printing
        → Runs p (record p { main = done; line = some (p.tids holder, p.tids waiter) })

  -- A return from sleep that nobody caused.
  abbrev pub IsSpurious : {p p' : Program} → Runs p p' → Type 0
  IsSpurious (goes_on (returns t e) inside) = Unit
  IsSpurious _ = ⊥

  -- The state of `main` once the file to read has been found.
  abbrev pub started : Program
  started = record {
    mutex = unlocked;
    places = λ t. unspawned;
    tids = λ t. 0;
    holder_acquired = false;
    main = spawning_holder;
    line = none;
  }

  pub data Reached : Program → Type 0 where
    at_first : Reached started
    and_then : {p p' : Program} → Reached p → Runs p p' → Reached p'
