-- ===== src/Synthetic/Sound.antt =====
-- synthetic/src/main.rs: where the threads of `main` can be, and what the mutex then knows of them.
use whyslow.Base.{
  ℕ, ◌≡◌, ◌≢◌, refl, sym, ◌∙◌, subst, ◌⊎◌, inl, inr, Bool, true, false, Bool-cases, arith, ◌==◌,
  ==→eq,
}
use whyslow.Synthetic.Mutex.{
  Pc, outside, entering, retrying, calling, asleep, holding, notifying, Mutex, put, Step,
  calls_lock, exchanges, exchange_fails, swap_locks, swap_fails, falls_asleep, wait_refused,
  returns, unlocks, unlocks_contended, wakes, wakes_nobody,
}
use whyslow.Synthetic.Exclusion.{put_same, put_other}
use whyslow.Synthetic.Program.{
  Place, unspawned, starting, before_lock, in_lock, reading, before_unlock, in_unlock, finished,
  panicked, MainPlace, spawning_holder, polling, spawning_waiter, joining_holder, joining_waiter,
  printing, done, aborted, IsInside,
}

-- Where the mutex has a thread that is there.
abbrev pub Fits : Place → Pc → Type 0
Fits unspawned pc = pc ≡ outside
Fits starting pc = pc ≡ outside
Fits before_lock pc = pc ≡ outside
Fits in_lock pc = (pc ≢ outside) × (pc ≢ notifying)
Fits reading pc = pc ≡ holding
Fits before_unlock pc = pc ≡ holding
Fits in_unlock pc = (pc ≡ outside) ⊎ (pc ≡ notifying)
Fits finished pc = pc ≡ outside
Fits panicked pc = pc ≡ holding

abbrev pub AllFit : (ℕ → Place) → (ℕ → Pc) → Type 0
AllFit places at = (u : ℕ) → Fits (places u) (at u)

-- On the way into the mutex.
abbrev pub IsQueued : Pc → Type 0
IsQueued pc = (pc ≢ outside) × ((pc ≢ notifying) × (pc ≢ holding))

Fits-locking :
    (place : Place) (p q : Pc)
    → IsQueued p
    → q ≢ outside
    → q ≢ notifying
    → Fits place p
    → Fits place q
Fits-locking unspawned p q h o n f = absurd (h.0 f)
Fits-locking starting p q h o n f = absurd (h.0 f)
Fits-locking before_lock p q h o n f = absurd (h.0 f)
Fits-locking in_lock p q h o n f = (o, n)
Fits-locking reading p q h o n f = absurd (h.1.1 f)
Fits-locking before_unlock p q h o n f = absurd (h.1.1 f)
Fits-locking in_unlock p q h o n (inl f) = absurd (h.0 f)
Fits-locking in_unlock p q h o n (inr f) = absurd (h.1.0 f)
Fits-locking finished p q h o n f = absurd (h.0 f)
Fits-locking panicked p q h o n f = absurd (h.1.1 f)

Fits-released : (place : Place) (p : Pc) → p ≡ notifying → Fits place p → Fits place outside
Fits-released unspawned p e f = refl
Fits-released starting p e f = refl
Fits-released before_lock p e f = refl
Fits-released in_lock p e f = absurd (f.1 e)
Fits-released reading p e f = absurd (ground arith)
Fits-released before_unlock p e f = absurd (ground arith)
Fits-released in_unlock p e f = inl refl
Fits-released finished p e f = refl
Fits-released panicked p e f = absurd (ground arith)

put-AllFit :
    (places : ℕ → Place) (at : ℕ → Pc) (t : ℕ) (q : Pc)
    → AllFit places at
    → (Fits (places t) (at t) → Fits (places t) q)
    → AllFit places (put t q at)
put-AllFit places at t q fits moves u = elim (Bool-cases (u == t)) [
  | inl same ↦
      subst (λ x. Fits (places x) (put t q at x)) (sym (==→eq u t same))
        (subst (Fits (places t)) (sym (put_same t q at)) (moves (fits t)))
  | inr other ↦ subst (Fits (places u)) (sym (put_other t u q at (λ e. ground arith))) (fits u)
]

-- A step inside the mutex leaves every thread where it is.
locking-AllFit :
    (places : ℕ → Place) (at : ℕ → Pc) (t : ℕ) (p q : Pc)
    → at t ≡ p
    → IsQueued p
    → q ≢ outside
    → q ≢ notifying
    → AllFit places at
    → AllFit places (put t q at)
locking-AllFit places at t p q e h o n fits =
    put-AllFit places at t q fits
      (λ f. Fits-locking (places t) p q h o n (subst (Fits (places t)) e f))

releasing-AllFit :
    (places : ℕ → Place) (at : ℕ → Pc) (t : ℕ)
    → at t ≡ notifying
    → AllFit places at
    → AllFit places (put t outside at)
releasing-AllFit places at t e fits =
    put-AllFit places at t outside fits (Fits-released (places t) (at t) e)

queued : IsQueued entering × (IsQueued retrying × (IsQueued calling × IsQueued asleep))
queued = search arith

pub Step-AllFit :
    {s s' : Mutex} (places : ℕ → Place) (step : Step s s')
    → IsInside step
    → AllFit places s.at
    → AllFit places s'.at
Step-AllFit places (calls_lock t e) i = absurd i
Step-AllFit places (unlocks t e z) i = absurd i
Step-AllFit places (unlocks_contended t e z) i = absurd i
Step-AllFit {s = s} places (exchanges t e z) i =
    locking-AllFit places s.at t entering holding e queued.0 (λ h. ground arith) (λ h. ground arith)
Step-AllFit {s = s} places (exchange_fails t e z) i =
    locking-AllFit places s.at t entering retrying e queued.0 (λ h. ground arith)
      (λ h. ground arith)
Step-AllFit {s = s} places (swap_locks t e z) i =
    locking-AllFit places s.at t retrying holding e queued.1.0 (λ h. ground arith)
      (λ h. ground arith)
Step-AllFit {s = s} places (swap_fails t e z) i =
    locking-AllFit places s.at t retrying calling e queued.1.0 (λ h. ground arith)
      (λ h. ground arith)
Step-AllFit {s = s} places (falls_asleep t e z) i =
    locking-AllFit places s.at t calling asleep e queued.1.1.0 (λ h. ground arith)
      (λ h. ground arith)
Step-AllFit {s = s} places (wait_refused t e z) i =
    locking-AllFit places s.at t calling retrying e queued.1.1.0 (λ h. ground arith)
      (λ h. ground arith)
Step-AllFit {s = s} places (returns t e) i =
    locking-AllFit places s.at t asleep retrying e queued.1.1.1 (λ h. ground arith)
      (λ h. ground arith)
Step-AllFit {s = s} places (wakes t u e f) i = λ fits.
    locking-AllFit places (put t outside s.at) u asleep retrying
      (put_other t u outside s.at (λ same. ground arith) ∙ f) queued.1.1.1 (λ h. ground arith)
      (λ h. ground arith) (releasing-AllFit places s.at t e fits)
Step-AllFit {s = s} places (wakes_nobody t e n) i = releasing-AllFit places s.at t e

-- The holder is behind its call of `lock`.
abbrev pub is_past : Place → Bool
is_past unspawned = false
is_past starting = false
is_past before_lock = false
is_past in_lock = false
is_past reading = true
is_past before_unlock = true
is_past in_unlock = true
is_past finished = true
is_past panicked = true

-- Where `main` is says where the holder and the waiter are, and whether the flag is set.
abbrev pub Joined : MainPlace → Place → Place → Bool → Type 0
Joined spawning_holder h w flag = (h ≡ unspawned) × (w ≡ unspawned)
Joined polling h w flag = (h ≢ unspawned) × (w ≡ unspawned)
Joined spawning_waiter h w flag = (h ≢ unspawned) × ((w ≡ unspawned) × (flag ≡ true))
Joined joining_holder h w flag = (h ≢ unspawned) × ((w ≢ unspawned) × (flag ≡ true))
Joined joining_waiter h w flag = (h ≡ finished) × ((w ≢ unspawned) × (flag ≡ true))
Joined printing h w flag = (h ≡ finished) × ((w ≡ finished) × (flag ≡ true))
Joined done h w flag = (h ≡ finished) × ((w ≡ finished) × (flag ≡ true))
Joined aborted h w flag = (h ≡ panicked) × ((w ≢ unspawned) × (flag ≡ true))

-- A thread that takes steps.
abbrev pub IsRunning : Place → Type 0
IsRunning place = (place ≢ unspawned) × ((place ≢ finished) × (place ≢ panicked))

pub Joined-holder :
    (main : MainPlace) (h h' w : Place) (flag flag' : Bool)
    → IsRunning h
    → h' ≢ unspawned
    → (flag ≡ true → flag' ≡ true)
    → Joined main h w flag
    → Joined main h' w flag'
Joined-holder spawning_holder h h' w flag flag' r n up j = absurd (r.0 j.0)
Joined-holder polling h h' w flag flag' r n up j = (n, j.1)
Joined-holder spawning_waiter h h' w flag flag' r n up j = (n, (j.1.0, up j.1.1))
Joined-holder joining_holder h h' w flag flag' r n up j = (n, (j.1.0, up j.1.1))
Joined-holder joining_waiter h h' w flag flag' r n up j = absurd (r.1.0 j.0)
Joined-holder printing h h' w flag flag' r n up j = absurd (r.1.0 j.0)
Joined-holder done h h' w flag flag' r n up j = absurd (r.1.0 j.0)
Joined-holder aborted h h' w flag flag' r n up j = absurd (r.1.1 j.0)

pub Joined-waiter :
    (main : MainPlace) (h w w' : Place) (flag : Bool)
    → IsRunning w
    → w' ≢ unspawned
    → Joined main h w flag
    → Joined main h w' flag
Joined-waiter spawning_holder h w w' flag r n j = absurd (r.0 j.1)
Joined-waiter polling h w w' flag r n j = absurd (r.0 j.1)
Joined-waiter spawning_waiter h w w' flag r n j = absurd (r.0 j.1.0)
Joined-waiter joining_holder h w w' flag r n j = (j.0, (n, j.1.1))
Joined-waiter joining_waiter h w w' flag r n j = (j.0, (n, j.1.1))
Joined-waiter printing h w w' flag r n j = absurd (r.1.0 j.1.0)
Joined-waiter done h w w' flag r n j = absurd (r.1.0 j.1.0)
Joined-waiter aborted h w w' flag r n j = (j.0, (n, j.1.1))
