-- ===== src/Synthetic/Progress.antt =====
-- synthetic/src/main.rs: `main` and its two threads never wait for each other in a circle.
use whyslow.Base.{
  ℕ, ◌≡◌, ◌≢◌, refl, sym, ◌∙◌, ap, ◌⊎◌, inl, inr, Bool, true, false, Bool-cases, Option, none, some,
  arith, ◌==◌, ==→eq,
}
use whyslow.Base.Result.{ok, err, Anyhow}
use whyslow.Synthetic.Mutex.{
  Pc, outside, entering, retrying, calling, asleep, holding, notifying, Reachable, exchanges,
  exchange_fails, swap_locks, swap_fails, falls_asleep, wait_refused, wakes, wakes_nobody,
}
use whyslow.Synthetic.Wakeup.{no_lost_wakeup}
use whyslow.Synthetic.Read.{SystemAnswers, cold_direct_read}
use whyslow.Synthetic.Program.{
  Place, unspawned, starting, before_lock, in_lock, reading, before_unlock, in_unlock, finished,
  panicked, MainPlace, spawning_holder, polling, spawning_waiter, joining_holder, joining_waiter,
  printing, done, aborted, holder, waiter, Program, Runs, IsSpurious, spawns_holder, stores_tid,
  locks, goes_on, acquires, reads, panics, acquires_too, unlocks_free, unlocks_waited, ends, sees,
  spawns_waiter, joins_holder, finds_panic, joins_waiter, prints, Reached,
}
use whyslow.Synthetic.Sound.{is_past, IsRunning}
use whyslow.Synthetic.Moves.{IsSound, Joined-at, which, Fits-at}
use whyslow.Synthetic.Order.{Reached-IsSound, Reached-Reachable}

is_asleep : Pc → Bool
is_asleep asleep = true
is_asleep pc = false

is_asleep-true : (pc : Pc) → is_asleep pc ≡ true → pc ≡ asleep
unfolding is_asleep
is_asleep-true asleep e = refl
is_asleep-true outside e = absurd (ground arith)
is_asleep-true entering e = absurd (ground arith)
is_asleep-true retrying e = absurd (ground arith)
is_asleep-true calling e = absurd (ground arith)
is_asleep-true holding e = absurd (ground arith)
is_asleep-true notifying e = absurd (ground arith)

is_asleep-false : (pc : Pc) → is_asleep pc ≡ false → pc ≢ asleep
unfolding is_asleep
is_asleep-false pc e q = let yes : is_asleep pc ≡ true = ap is_asleep q in absurd (ground arith)

Place-cases : (x : Place) → (x ≡ unspawned) ⊎ (x ≡ finished) ⊎ (x ≡ panicked) ⊎ IsRunning x
Place-cases unspawned = inl refl
Place-cases finished = inr (inl refl)
Place-cases panicked = inr (inr (inl refl))
Place-cases starting = inr (inr (inr (search arith)))
Place-cases before_lock = inr (inr (inr (search arith)))
Place-cases in_lock = inr (inr (inr (search arith)))
Place-cases reading = inr (inr (inr (search arith)))
Place-cases before_unlock = inr (inr (inr (search arith)))
Place-cases in_unlock = inr (inr (inr (search arith)))

module _ (answers : SystemAnswers) where
  -- A step that somebody takes by himself.
  abbrev pub CanGo : Program → Type 0
  CanGo p = (p' : Program) × (run : Runs answers p p') × ¬ IsSpurious answers run

  module _ (p : Program) (v : IsSound p) where
    goes_in_lock :
        (t : ℕ) → p.places t ≡ in_lock → (pc : Pc) → p.mutex.at t ≡ pc → CanGo p ⊎ (pc ≡ asleep)
    goes_in_lock t e outside at = absurd ((Fits-at p t in_lock v e).0 at)
    goes_in_lock t e entering at = inl (elim (Bool-cases (p.mutex.word == 0)) [
      | inl same ↦ (_, goes_on (exchanges t at (==→eq p.mutex.word 0 same)) tt, λ s. s)
      | inr off ↦ (_, goes_on (exchange_fails t at (λ q. ground arith)) tt, λ s. s)
    ])
    goes_in_lock t e retrying at = inl (elim (Bool-cases (p.mutex.word == 0)) [
      | inl same ↦ (_, goes_on (swap_locks t at (==→eq p.mutex.word 0 same)) tt, λ s. s)
      | inr off ↦ (_, goes_on (swap_fails t at (λ q. ground arith)) tt, λ s. s)
    ])
    goes_in_lock t e calling at = inl (elim (Bool-cases (p.mutex.word == 2)) [
      | inl same ↦ (_, goes_on (falls_asleep t at (==→eq p.mutex.word 2 same)) tt, λ s. s)
      | inr off ↦ (_, goes_on (wait_refused t at (λ q. ground arith)) tt, λ s. s)
    ])
    goes_in_lock t e asleep at = inr refl
    goes_in_lock t e holding at = inl (elim (which p t v (λ q. ground arith)) [
      | inl h ↦ (_, acquires (ap p.places (sym h) ∙ e) (ap p.mutex.at (sym h) ∙ at), λ s. s)
      | inr w ↦ (_, acquires_too (ap p.places (sym w) ∙ e) (ap p.mutex.at (sym w) ∙ at), λ s. s)
    ])
    goes_in_lock t e notifying at = absurd ((Fits-at p t in_lock v e).1 at)

    reads_on :
        (answer : Option (Anyhow Unit))
        → cold_direct_read answers ≡ answer
        → p.places holder ≡ reading
        → CanGo p
    reads_on none a e = (_, panics e (λ q. ground arith), λ s. s)
    reads_on (some (ok _)) a e = (_, reads e a, λ s. s)
    reads_on (some (err why)) a e = (_, panics e (λ q. ground arith), λ s. s)

    nobody :
        is_asleep (p.mutex.at holder) ≡ false
        → is_asleep (p.mutex.at waiter) ≡ false
        → (u : ℕ) → p.mutex.at u ≢ asleep
    nobody h w u e =
        elim (which p u v (λ q. let out = Fits-at p u unspawned v q in absurd (ground arith))) [
          | inl same ↦ is_asleep-false (p.mutex.at holder) h (ap p.mutex.at (sym same) ∙ e)
          | inr same ↦ is_asleep-false (p.mutex.at waiter) w (ap p.mutex.at (sym same) ∙ e)
        ]

    notifies : (t : ℕ) → p.mutex.at t ≡ notifying → CanGo p
    notifies t at = elim (Bool-cases (is_asleep (p.mutex.at holder))) [
      | inl h ↦ (_, goes_on (wakes t holder at (is_asleep-true _ h)) tt, λ s. s)
      | inr h ↦ elim (Bool-cases (is_asleep (p.mutex.at waiter))) [
        | inl w ↦ (_, goes_on (wakes t waiter at (is_asleep-true _ w)) tt, λ s. s)
        | inr w ↦ (_, goes_on (wakes_nobody t at (nobody h w)) tt, λ s. s)
      ]
    ]

    unlocks_now : (t : ℕ) → p.places t ≡ before_unlock → CanGo p
    unlocks_now t e = elim (Bool-cases (p.mutex.word == 2)) [
      | inl same ↦ (
        _,
        unlocks_waited t e (Fits-at p t before_unlock v e) (==→eq p.mutex.word 2 same),
        λ s. s,
      )
      | inr off ↦ (_, unlocks_free t e (Fits-at p t before_unlock v e) (λ q. ground arith), λ s. s)
    ]

    -- A running thread goes on, or sleeps.
    thread_goes :
        (t : ℕ) (x : Place) → p.places t ≡ x → IsRunning x → CanGo p ⊎ (p.mutex.at t ≡ asleep)
    thread_goes t unspawned e r = absurd (r.0 refl)
    thread_goes t starting e r = inl (_, stores_tid t e, λ s. s)
    thread_goes t before_lock e r = inl (_, locks t e (Fits-at p t before_lock v e), λ s. s)
    thread_goes t in_lock e r = goes_in_lock t e (p.mutex.at t) refl
    thread_goes t reading e r = elim (which p t v (λ q. ground arith)) [
      | inl h ↦ inl (reads_on (cold_direct_read answers) refl (ap p.places (sym h) ∙ e))
      | inr w ↦ absurd (v.waiter_there.0 (ap p.places (sym w) ∙ e))
    ]
    thread_goes t before_unlock e r = inl (unlocks_now t e)
    thread_goes t in_unlock e r = elim (Fits-at p t in_unlock v e) [
      | inl out ↦ inl (_, ends t e out, λ s. s)
      | inr at ↦ inl (notifies t at)
    ]
    thread_goes t finished e r = absurd (r.1.0 refl)
    thread_goes t panicked e r = absurd (r.1.1 refl)

    -- A thread that the mutex knows of and that does not sleep.
    awake_goes :
        (u : ℕ)
        → p.places holder ≢ panicked
        → p.mutex.at u ≢ outside
        → p.mutex.at u ≢ asleep
        → CanGo p
    awake_goes u calm inside awake = elim (Place-cases (p.places u)) [
      | inl e ↦ absurd (inside (Fits-at p u unspawned v e))
      | inr (inl e) ↦ absurd (inside (Fits-at p u finished v e))
      | inr (inr (inl e)) ↦ elim (which p u v (λ q. ground arith)) [
        | inl h ↦ absurd (calm (ap p.places (sym h) ∙ e))
        | inr w ↦ absurd (v.waiter_there.1 (ap p.places (sym w) ∙ e))
      ]
      | inr (inr (inr r)) ↦ elim (thread_goes u (p.places u) refl r) [
        | inl go ↦ go
        | inr sleeps ↦ absurd (awake sleeps)
      ]
    ]

    running_goes :
        (t : ℕ) → Reachable p.mutex → IsRunning (p.places t) → p.places holder ≢ panicked → CanGo p
    running_goes t reachable r calm = elim (thread_goes t (p.places t) refl r) [
      | inl go ↦ go
      | inr sleeps ↦ elim (no_lost_wakeup p.mutex t reachable sleeps) [
        | inl (two, (u, held)) ↦ awake_goes u calm (λ q. ground arith) (λ q. ground arith)
        | inr (u, inl at) ↦ awake_goes u calm (λ q. ground arith) (λ q. ground arith)
        | inr (u, inr at) ↦ awake_goes u calm (λ q. ground arith) (λ q. ground arith)
      ]
    ]

    polls : p.main ≡ polling → Reachable p.mutex → CanGo p
    polls e reachable = elim (Bool-cases p.holder_acquired) [
      | inl set ↦ (_, sees e set, λ s. s)
      | inr unset ↦
          let early = sym v.flag ∙ unset in
          let not_past : (x : Place) → is_past x ≡ true → p.places holder ≢ x =
            λ x past q. absurd (ground arith) in
          running_goes holder reachable
            ((Joined-at p polling v e).0, (not_past finished refl, not_past panicked refl))
            (not_past panicked refl)
    ]

    joins : p.main ≡ joining_holder → Reachable p.mutex → CanGo p
    joins e reachable = elim (Place-cases (p.places holder)) [
      | inl at ↦ absurd ((Joined-at p joining_holder v e).0 at)
      | inr (inl at) ↦ (_, joins_holder e at, λ s. s)
      | inr (inr (inl at)) ↦ (_, finds_panic e at, λ s. s)
      | inr (inr (inr r)) ↦ running_goes holder reachable r r.1.1
    ]

    joins_too : p.main ≡ joining_waiter → Reachable p.mutex → CanGo p
    joins_too e reachable =
        let (h, (w, _)) = Joined-at p joining_waiter v e in
        elim (Place-cases (p.places waiter)) [
          | inl at ↦ absurd (w at)
          | inr (inl at) ↦ (_, joins_waiter e at, λ s. s)
          | inr (inr (inl at)) ↦ absurd (v.waiter_there.1 at)
          | inr (inr (inr r)) ↦ running_goes waiter reachable r (λ q. ground arith)
        ]

    main_goes :
        (main : MainPlace)
        → p.main ≡ main
        → main ≢ done
        → main ≢ aborted
        → Reachable p.mutex
        → CanGo p
    main_goes spawning_holder e d a r = (_, spawns_holder e, λ s. s)
    main_goes polling e d a r = polls e r
    main_goes spawning_waiter e d a r = (_, spawns_waiter e, λ s. s)
    main_goes joining_holder e d a r = joins e r
    main_goes joining_waiter e d a r = joins_too e r
    main_goes printing e d a r = (_, prints e, λ s. s)
    main_goes done e d a r = absurd (d refl)
    main_goes aborted e d a r = absurd (a refl)

  -- Until `main` has printed its line or found that the holder panicked, there is always a step that
  -- `main` or a thread can take, and that is no return from sleep for no cause.
  pub Reached-CanGo : (p : Program) → Reached answers p → p.main ≢ done → p.main ≢ aborted → CanGo p
  Reached-CanGo p r d a =
      main_goes p (Reached-IsSound answers r) p.main refl d a (Reached-Reachable answers r)
