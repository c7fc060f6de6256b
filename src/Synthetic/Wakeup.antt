-- ===== src/Synthetic/Wakeup.antt =====
-- synthetic/src/main.rs: no wakeup is lost.
use whyslow.Base.{ℕ, ◌≡◌, ◌≢◌, refl, sym, subst, ◌⊎◌, inl, inr, Bool-cases, arith, ◌==◌}
use whyslow.Synthetic.Mutex.{
  Pc, outside, entering, retrying, asleep, holding, notifying, Mutex, put, Step, calls_lock,
  exchanges, exchange_fails, swap_locks, swap_fails, falls_asleep, wait_refused, returns, unlocks,
  unlocks_contended, wakes, wakes_nobody, Reachable, at_start, then_step,
}
use whyslow.Synthetic.Exclusion.{put_same, put_other, mutual_exclusion}

-- The thread is on its way to the next wake, or to the next swap, which marks the word as contended.
abbrev pub IsActive : Pc → Type 0
IsActive p = (p ≡ notifying) ⊎ (p ≡ retrying)

-- Sleepers are accounted for: the word says that there are some, or a thread is active.
abbrev pub IsWatched : ℕ → (ℕ → Pc) → Type 0
IsWatched word at = (u : ℕ) → at u ≡ asleep → (word ≡ 2) ⊎ ((v : ℕ) × IsActive (at v))

watch_move :
    (word word' : ℕ) (at : ℕ → Pc) (t : ℕ) (q : Pc)
    → (word ≡ 2 → word' ≡ 2)
    → ¬ IsActive (at t)
    → q ≢ asleep
    → IsWatched word at
    → IsWatched word' (put t q at)
watch_move word word' at t q stays idle awake w u e = elim (Bool-cases (u == t)) [
  | inl same ↦ absurd (awake (ground arith))
  | inr other ↦ elim (w u (ground arith)) [
    | inl two ↦ inl (stays two)
    | inr (v, active) ↦ inr (
      v,
      subst IsActive
          (sym (put_other t v q at (λ same. idle (subst (λ x. IsActive (at x)) same active))))
          active,
    )
  ]
]

watch_active : (word : ℕ) (at : ℕ → Pc) (t : ℕ) (q : Pc) → IsActive q → IsWatched word (put t q at)
watch_active word at t q active u e = inr (t, subst IsActive (sym (put_same t q at)) active)

Step-IsWatched : {s s' : Mutex} → Step s s' → IsWatched s.word s.at → IsWatched s'.word s'.at
Step-IsWatched {s = s} (calls_lock t e) w =
    watch_move s.word s.word s.at t entering (λ z. z) (λ a. ground arith) (λ h. ground arith) w
Step-IsWatched {s = s} (exchanges t e z) w =
    watch_move s.word 1 s.at t holding (λ q. omega arith) (λ a. ground arith) (λ h. ground arith) w
Step-IsWatched {s = s} (exchange_fails t e z) w = watch_active s.word s.at t retrying (inr refl)
Step-IsWatched {s = s} (swap_locks t e z) w = λ u f. inl refl
Step-IsWatched {s = s} (swap_fails t e z) w = λ u f. inl refl
Step-IsWatched {s = s} (falls_asleep t e z) w = λ u f. inl z
Step-IsWatched {s = s} (wait_refused t e z) w = watch_active s.word s.at t retrying (inr refl)
Step-IsWatched {s = s} (returns t e) w = watch_active s.word s.at t retrying (inr refl)
Step-IsWatched {s = s} (unlocks t e z) w =
    watch_move s.word 0 s.at t outside (λ q. absurd (z q)) (λ a. ground arith) (λ h. ground arith) w
Step-IsWatched {s = s} (unlocks_contended t e z) w = watch_active 0 s.at t notifying (inl refl)
Step-IsWatched {s = s} (wakes t u e f) w =
    watch_active s.word (put t outside s.at) u retrying (inr refl)
Step-IsWatched {s = s} (wakes_nobody t e none_asleep) w = λ u f. elim (Bool-cases (u == t)) [
  | inl same ↦ absurd (ground arith)
  | inr other ↦ absurd (none_asleep u (ground arith))
]

Reachable-IsWatched : {s : Mutex} → Reachable s → IsWatched s.word s.at
Reachable-IsWatched at_start = λ u e. absurd (ground arith)
Reachable-IsWatched (then_step r step) = Step-IsWatched step (Reachable-IsWatched r)

-- Whatever threads run, in whatever order: while a thread sleeps in the mutex, either some thread
-- holds it and the word tells that thread to wake one on unlocking, or some thread is about to wake
-- one, or some thread is about to try again.
pub no_lost_wakeup :
    (s : Mutex) (u : ℕ)
    → Reachable s
    → s.at u ≡ asleep
    → ((s.word ≡ 2) × ((t : ℕ) × (s.at t ≡ holding)))
      ⊎ ((t : ℕ) × ((s.at t ≡ notifying) ⊎ (s.at t ≡ retrying)))
no_lost_wakeup s u r e = elim (Reachable-IsWatched r u e) [
  | inl two ↦ inl (two, (mutual_exclusion s r).1.0 (λ z. omega arith))
  | inr active ↦ inr active
]
