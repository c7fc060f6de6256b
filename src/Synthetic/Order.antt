-- ===== src/Synthetic/Order.antt =====
-- synthetic/src/main.rs: in what order `main` and its two threads go on.
use whyslow.Base.{
  ℕ, ◌≡◌, ◌≢◌, refl, sym, ◌∙◌, ap, subst, inl, inr, Bool, true, Bool-cases, arith, ◌==◌, ==→eq,
}
use whyslow.Synthetic.Mutex.{
  outside, entering, notifying, Reachable, at_start, then_step, calls_lock, unlocks,
  unlocks_contended,
}
use whyslow.Synthetic.Exclusion.{mutual_exclusion}
use whyslow.Synthetic.Read.{SystemAnswers, gettid}
use whyslow.Synthetic.Program.{
  Place, unspawned, starting, before_lock, in_lock, reading, before_unlock, in_unlock, finished,
  panicked, MainPlace, spawning_holder, polling, spawning_waiter, joining_holder, joining_waiter,
  printing, done, aborted, holder, waiter, set_at, placed, Program, Runs, spawns_holder, stores_tid,
  locks, goes_on, acquires, reads, panics, acquires_too, unlocks_free, unlocks_waited, ends, sees,
  spawns_waiter, joins_holder, finds_panic, joins_waiter, prints, Reached, at_first, and_then,
}
use whyslow.Synthetic.Sound.{Step-AllFit, is_past, Joined, IsRunning}
use whyslow.Synthetic.Moves.{
  IsSound, Joined-at, moves, steps, place-AllFit, both-AllFit, Fits-at, set_other,
}

spawned-IsSound :
    (p : Program)
    → IsSound p
    → p.main ≡ spawning_holder
    → IsSound (record (placed p holder starting) { main = polling })
spawned-IsSound p v e =
    let (h, w) = Joined-at p spawning_holder v e in
    record {
      fits =
          place-AllFit p.places p.mutex.at holder starting v.fits (Fits-at p holder unspawned v h);
      flag = v.flag ∙ ap is_past h;
      joined = ((λ q. ground arith), w);
      others = λ t a b. set_other holder t starting p.places a ∙ v.others t a b;
      waiter_there = v.waiter_there;
      printed = λ q. absurd (ground arith);
    }

spawned_too-IsSound :
    (p : Program)
    → IsSound p
    → p.main ≡ spawning_waiter
    → IsSound (record (placed p waiter starting) { main = joining_holder })
spawned_too-IsSound p v e =
    let (h, (w, flag)) = Joined-at p spawning_waiter v e in
    record {
      fits =
          place-AllFit p.places p.mutex.at waiter starting v.fits (Fits-at p waiter unspawned v w);
      flag = v.flag;
      joined = (h, ((λ q. ground arith), flag));
      others = λ t a b. set_other waiter t starting p.places b ∙ v.others t a b;
      waiter_there = ((λ q. ground arith), (λ q. ground arith));
      printed = λ q. absurd (ground arith);
    }

-- `main` alone goes on, but not to its end.
main-IsSound :
    (p : Program) (main : MainPlace)
    → IsSound p
    → main ≢ done
    → Joined main (p.places holder) (p.places waiter) p.holder_acquired
    → IsSound (record p { main = main })
main-IsSound p main v not_yet joined = record {
  fits = v.fits;
  flag = v.flag;
  joined = joined;
  others = v.others;
  waiter_there = v.waiter_there;
  printed = λ q. absurd (not_yet q);
}

Joined-flag :
    (main : MainPlace) (h w : Place) (flag : Bool)
    → Joined main h w flag
    → w ≢ unspawned
    → flag ≡ true
Joined-flag spawning_holder h w flag j there = absurd (there j.1)
Joined-flag polling h w flag j there = absurd (there j.1)
Joined-flag spawning_waiter h w flag j there = j.1.1
Joined-flag joining_holder h w flag j there = j.1.1
Joined-flag joining_waiter h w flag j there = j.1.1
Joined-flag printing h w flag j there = j.1.1
Joined-flag done h w flag j there = j.1.1
Joined-flag aborted h w flag j there = j.1.1

module _ (answers : SystemAnswers) where
  Runs-IsSound : {p p' : Program} → Runs answers p p' → IsSound p → IsSound p'
  Runs-IsSound {p = p} (spawns_holder e) v = spawned-IsSound p v e
  Runs-IsSound {p = p} (stores_tid t e) v =
      steps p t starting before_lock p.mutex (set_at t (gettid answers t) p.tids) v e (search arith)
        (λ q. ground arith) refl
        (place-AllFit p.places p.mutex.at t before_lock v.fits (Fits-at p t starting v e))
        (λ q. search arith)
  Runs-IsSound {p = p} (locks t e out) v =
      steps p t before_lock in_lock _ p.tids v e (search arith) (λ q. ground arith) refl
        (both-AllFit p.places p.mutex.at t in_lock entering v.fits (search arith))
        (λ q. search arith)
  Runs-IsSound {p = p} (goes_on {m = m} step inside) v = record {
    fits = Step-AllFit p.places step inside v.fits;
    flag = v.flag;
    joined = v.joined;
    others = v.others;
    waiter_there = v.waiter_there;
    printed = v.printed;
  }
  Runs-IsSound {p = p} (acquires e held) v =
      moves p holder reading p.mutex p.tids true v (subst IsRunning (sym e) (search arith))
        (λ q. ground arith) (place-AllFit p.places p.mutex.at holder reading v.fits held) refl
        (λ _. refl) (λ q. absurd (ground arith))
  Runs-IsSound {p = p} (reads e fine) v =
      steps p holder reading before_unlock p.mutex p.tids v e (search arith) (λ q. ground arith)
        refl
        (place-AllFit p.places p.mutex.at holder before_unlock v.fits
          (Fits-at p holder reading v e))
        (λ q. search arith)
  Runs-IsSound {p = p} (panics e failed) v =
      steps p holder reading panicked p.mutex p.tids v e (search arith) (λ q. ground arith) refl
        (place-AllFit p.places p.mutex.at holder panicked v.fits (Fits-at p holder reading v e))
        (λ q. absurd (ground arith))
  Runs-IsSound {p = p} (acquires_too e held) v =
      moves p waiter before_unlock p.mutex p.tids p.holder_acquired v
        (subst IsRunning (sym e) (search arith)) (λ q. ground arith)
        (place-AllFit p.places p.mutex.at waiter before_unlock v.fits held) v.flag (λ _. refl)
        (λ q. search arith)
  Runs-IsSound {p = p} (unlocks_free t e held z) v =
      steps p t before_unlock in_unlock _ p.tids v e (search arith) (λ q. ground arith) refl
        (both-AllFit p.places p.mutex.at t in_unlock outside v.fits (inl refl)) (λ q. search arith)
  Runs-IsSound {p = p} (unlocks_waited t e held z) v =
      steps p t before_unlock in_unlock _ p.tids v e (search arith) (λ q. ground arith) refl
        (both-AllFit p.places p.mutex.at t in_unlock notifying v.fits (inr refl))
        (λ q. search arith)
  Runs-IsSound {p = p} (ends t e out) v =
      steps p t in_unlock finished p.mutex p.tids v e (search arith) (λ q. ground arith) refl
        (place-AllFit p.places p.mutex.at t finished v.fits out) (λ q. search arith)
  Runs-IsSound {p = p} (sees e set) v =
      let joined = Joined-at p _ v e in
      main-IsSound p spawning_waiter v (λ q. ground arith) (joined.0, (joined.1, set))
  Runs-IsSound {p = p} (spawns_waiter e) v = spawned_too-IsSound p v e
  Runs-IsSound {p = p} (joins_holder e over) v =
      let joined = Joined-at p _ v e in
      main-IsSound p joining_waiter v (λ q. ground arith) (over, joined.1)
  Runs-IsSound {p = p} (finds_panic e over) v =
      let joined = Joined-at p _ v e in
      main-IsSound p aborted v (λ q. ground arith) (over, joined.1)
  Runs-IsSound {p = p} (joins_waiter e over) v =
      let joined = Joined-at p _ v e in
      main-IsSound p printing v (λ q. ground arith) (joined.0, (over, joined.1.1))
  Runs-IsSound {p = p} (prints e) v = record {
    fits = v.fits;
    flag = v.flag;
    joined = Joined-at p printing v e;
    others = v.others;
    waiter_there = v.waiter_there;
    printed = λ _. refl;
  }

  pub Reached-IsSound : {p : Program} → Reached answers p → IsSound p
  Reached-IsSound at_first = record {
    fits = λ u. refl;
    flag = refl;
    joined = (refl, refl);
    others = λ t a b. refl;
    waiter_there = search arith;
    printed = λ e. absurd (ground arith);
  }
  Reached-IsSound (and_then r run) = Runs-IsSound run (Reached-IsSound r)

  Runs-Reachable : {p p' : Program} → Runs answers p p' → Reachable p.mutex → Reachable p'.mutex
  Runs-Reachable (spawns_holder e) r = r
  Runs-Reachable (stores_tid t e) r = r
  Runs-Reachable (locks t e out) r = then_step r (calls_lock t out)
  Runs-Reachable (goes_on step inside) r = then_step r step
  Runs-Reachable (acquires e held) r = r
  Runs-Reachable (reads e fine) r = r
  Runs-Reachable (panics e failed) r = r
  Runs-Reachable (acquires_too e held) r = r
  Runs-Reachable (unlocks_free t e held z) r = then_step r (unlocks t held z)
  Runs-Reachable (unlocks_waited t e held z) r = then_step r (unlocks_contended t held z)
  Runs-Reachable (ends t e out) r = r
  Runs-Reachable (sees e set) r = r
  Runs-Reachable (spawns_waiter e) r = r
  Runs-Reachable (joins_holder e over) r = r
  Runs-Reachable (finds_panic e over) r = r
  Runs-Reachable (joins_waiter e over) r = r
  Runs-Reachable (prints e) r = r

  -- The mutex goes through the states that it has by itself.
  pub Reached-Reachable : {p : Program} → Reached answers p → Reachable p.mutex
  Reached-Reachable at_first = at_start
  Reached-Reachable (and_then r run) = Runs-Reachable run (Reached-Reachable r)

  pub all_outside :
      (p : Program)
      → IsSound p
      → p.places holder ≡ finished
      → p.places waiter ≡ finished
      → (t : ℕ) → p.mutex.at t ≡ outside
  all_outside p v h w t = elim (Bool-cases (t == holder)) [
    | inl same ↦
        subst (λ u. p.mutex.at u ≡ outside) (sym (==→eq t holder same))
          (Fits-at p holder finished v h)
    | inr off ↦ elim (Bool-cases (t == waiter)) [
      | inl same ↦
          subst (λ u. p.mutex.at u ≡ outside) (sym (==→eq t waiter same))
            (Fits-at p waiter finished v w)
      | inr off' ↦ Fits-at p t unspawned v (v.others t (λ e. ground arith) (λ e. ground arith))
    ]
  ]

  pub free :
      (p : Program) → Reached answers p → ((t : ℕ) → p.mutex.at t ≡ outside) → p.mutex.word ≡ 0
  free p r out = elim (Bool-cases (p.mutex.word == 0)) [
    | inl same ↦ ==→eq p.mutex.word 0 same
    | inr off ↦
        let (t, held) = (mutual_exclusion p.mutex (Reached-Reachable r)).1.0 (λ e. ground arith) in
        let gone = out t in absurd (ground arith)
  ]

  -- A waiter that is in `lock` or `unlock` is there only after the holder has got the mutex.
  pub Reached-flag :
      (p : Program) → Reached answers p → p.mutex.at waiter ≢ outside → p.holder_acquired ≡ true
  Reached-flag p r inside =
      let v = Reached-IsSound r in
      Joined-flag p.main (p.places holder) (p.places waiter) p.holder_acquired v.joined
        (λ e. inside (Fits-at p waiter unspawned v e))
