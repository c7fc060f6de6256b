-- ===== src/Synthetic/Tests.antt =====
-- The reproducer's two threads up to the point where the waiter sleeps, and the theorems there.
use whyslow.Base.{
  ℕ, ◌≡◌, ◌≢◌, refl, ◌⊎◌, inl, inr, true, Bool-cases, none, some, ◌==◌, ◌<◌, ◌+◌, arith,
}
use whyslow.Synthetic.Mutex.{
  outside, entering, retrying, calling, asleep, holding, notifying, Mutex, moved, unlocked,
  calls_lock, exchanges, exchange_fails, swap_locks, swap_fails, falls_asleep, wakes, wakes_nobody,
  Reachable, at_start, then_step,
}
use whyslow.Synthetic.Read.{
  SystemAnswers, gettid, cold_direct_read, read_again, new_buf, read_repeats,
}
use whyslow.Synthetic.Program.{
  starting, before_lock, in_lock, reading, before_unlock, in_unlock, finished, polling,
  spawning_waiter, joining_holder, joining_waiter, printing, done, holder, waiter, set_at, placed,
  Program, started, spawns_holder, stores_tid, locks, goes_on, acquires, reads, acquires_too,
  unlocks_waited, ends, sees, spawns_waiter, joins_holder, joins_waiter, prints, Reached, at_first,
  and_then,
}
use whyslow.Synthetic.Progress.{CanGo, Reached-CanGo}
use whyslow.Synthetic.Done.{Reached-done}
use whyslow.Synthetic.Exclusion.{mutual_exclusion}
use whyslow.Synthetic.Wakeup.{no_lost_wakeup}

-- The holder, thread 0, has locked.
abbrev locked : Mutex
locked = moved (moved unlocked 0 0 entering) 1 0 holding

-- The waiter, thread 1, has gone to sleep.
abbrev contended : Mutex
contended = moved (moved (moved (moved locked 1 1 entering) 1 1 retrying) 2 1 calling) 2 1 asleep

contended-Reachable : Reachable contended
contended-Reachable =
    then_step
      (then_step
        (then_step
          (then_step (then_step (then_step at_start (calls_lock 0 refl)) (exchanges 0 refl refl))
            (calls_lock 1 refl))
          (exchange_fails 1 refl (λ e. omega arith)))
        (swap_fails 1 refl (λ e. omega arith)))
      (falls_asleep 1 refl refl)

mutual_exclusion_example :
    ((t u : ℕ) → contended.at t ≡ holding → contended.at u ≡ holding → t ≡ u)
    × ((contended.word ≢ 0 → (t : ℕ) × (contended.at t ≡ holding))
        × ((t : ℕ) → contended.at t ≡ holding → contended.word ≢ 0))
mutual_exclusion_example = mutual_exclusion contended contended-Reachable

no_lost_wakeup_example :
    ((contended.word ≡ 2) × ((t : ℕ) × (contended.at t ≡ holding)))
    ⊎ ((t : ℕ) × ((contended.at t ≡ notifying) ⊎ (contended.at t ≡ retrying)))
no_lost_wakeup_example = no_lost_wakeup contended 1 contended-Reachable refl

-- A whole run of the reproducer, in which the waiter sleeps until the holder wakes it.
abbrev answering : SystemAnswers
answering = record { opening = none; allocated = 4096; pread = λ i. none; sys_gettid = λ t. 41 + t }

abbrev first : Program
first = started answering

abbrev spawned : Program
spawned = record (placed first holder starting) { main = polling }

abbrev numbered : Program
numbered = record (placed spawned holder before_lock) {
  tids = set_at holder (gettid answering holder) spawned.tids;
}

abbrev locking : Program
locking = record (placed numbered holder in_lock) {
  mutex = moved numbered.mutex numbered.mutex.word holder entering;
}

abbrev locked_by_holder : Program
locked_by_holder = record locking { mutex = moved locking.mutex 1 holder holding }

abbrev acquired : Program
acquired = record (placed locked_by_holder holder reading) { holder_acquired = true }

abbrev seen : Program
seen = record acquired { main = spawning_waiter }

abbrev spawned_too : Program
spawned_too = record (placed seen waiter starting) { main = joining_holder }

abbrev numbered_too : Program
numbered_too = record (placed spawned_too waiter before_lock) {
  tids = set_at waiter (gettid answering waiter) spawned_too.tids;
}

abbrev locking_too : Program
locking_too = record (placed numbered_too waiter in_lock) {
  mutex = moved numbered_too.mutex numbered_too.mutex.word waiter entering;
}

abbrev failed_once : Program
failed_once = record locking_too {
  mutex = moved locking_too.mutex locking_too.mutex.word waiter retrying;
}

abbrev failed_twice : Program
failed_twice = record failed_once { mutex = moved failed_once.mutex 2 waiter calling }

abbrev sleeping : Program
sleeping = record failed_twice {
  mutex = moved failed_twice.mutex failed_twice.mutex.word waiter asleep;
}

abbrev has_been_read : Program
has_been_read = placed sleeping holder before_unlock

abbrev unlocking : Program
unlocking = record (placed has_been_read holder in_unlock) {
  mutex = moved has_been_read.mutex 0 holder notifying;
}

abbrev woken : Program
woken = record unlocking {
  mutex =
      moved (moved unlocking.mutex unlocking.mutex.word holder outside) unlocking.mutex.word waiter
        retrying;
}

abbrev locked_by_waiter : Program
locked_by_waiter = record woken { mutex = moved woken.mutex 2 waiter holding }

abbrev acquired_too : Program
acquired_too = placed locked_by_waiter waiter before_unlock

abbrev unlocking_too : Program
unlocking_too = record (placed acquired_too waiter in_unlock) {
  mutex = moved acquired_too.mutex 0 waiter notifying;
}

abbrev let_go : Program
let_go = record unlocking_too {
  mutex = moved unlocking_too.mutex unlocking_too.mutex.word waiter outside;
}

abbrev holder_ended : Program
holder_ended = placed let_go holder finished

abbrev waiter_ended : Program
waiter_ended = placed holder_ended waiter finished

abbrev holder_joined : Program
holder_joined = record waiter_ended { main = joining_waiter }

abbrev waiter_joined : Program
waiter_joined = record holder_joined { main = printing }

abbrev printed : Program
printed = record waiter_joined {
  main = done;
  line = some (waiter_joined.tids holder, waiter_joined.tids waiter);
}

nobody_sleeps : (u : ℕ) → unlocking_too.mutex.at u ≢ asleep
nobody_sleeps u e = elim (Bool-cases (u == 0)) [
  | inl same ↦ absurd (ground arith)
  | inr off ↦ elim (Bool-cases (u == 1)) [
    | inl same ↦ absurd (ground arith)
    | inr off' ↦ absurd (ground arith)
  ]
]

sleeping-Reached : Reached answering sleeping
unfolding cold_direct_read read_again new_buf
sleeping-Reached =
    and_then
      (and_then
        (and_then
          (and_then
            (and_then
              (and_then
                (and_then
                  (and_then
                    (and_then
                      (and_then
                        (and_then (and_then at_first (spawns_holder refl)) (stores_tid holder refl))
                        (locks holder refl refl))
                      (goes_on (exchanges holder refl refl) tt))
                    (acquires refl refl))
                  (sees refl refl))
                (spawns_waiter refl))
              (stores_tid waiter refl))
            (locks waiter refl refl))
          (goes_on (exchange_fails waiter refl (λ e. omega arith)) tt))
        (goes_on (swap_fails waiter refl (λ e. omega arith)) tt))
      (goes_on (falls_asleep waiter refl refl) tt)

printed-Reached : Reached answering printed
unfolding cold_direct_read read_again new_buf
printed-Reached =
    and_then
      (and_then
        (and_then
          (and_then
            (and_then
              (and_then
                (and_then
                  (and_then
                    (and_then
                      (and_then
                        (and_then (and_then sleeping-Reached (reads refl refl))
                          (unlocks_waited holder refl refl refl))
                        (goes_on (wakes holder waiter refl refl) tt))
                      (goes_on (swap_locks waiter refl refl) tt))
                    (acquires_too refl refl))
                  (unlocks_waited waiter refl refl refl))
                (goes_on (wakes_nobody waiter refl nobody_sleeps) tt))
              (ends holder refl refl))
            (ends waiter refl refl))
          (joins_holder refl refl))
        (joins_waiter refl refl))
      (prints refl)

Reached-done_example :
    ((answering.opening ≡ none) × ((i : ℕ) → i < read_repeats → answering.pread i ≡ none))
    × (((printed.places holder ≡ finished) × (printed.places waiter ≡ finished))
        × (((t : ℕ) → printed.mutex.at t ≡ outside)
            × ((printed.mutex.word ≡ 0) × (printed.line ≡ some (41, 42)))))
Reached-done_example = Reached-done answering printed printed-Reached refl

Reached-CanGo_example : CanGo answering sleeping
Reached-CanGo_example =
    Reached-CanGo answering sleeping sleeping-Reached (λ e. ground arith) (λ e. ground arith)
