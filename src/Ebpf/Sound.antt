-- ===== src/Ebpf/Sound.antt =====
-- whyslow-ebpf/src/main.rs: every program keeps the invariant, and what an emitted event says.
use whyslow.Base.{
  sym, subst, ℕ, ◌+◌, ◌-◌, ◌≤◌, ◌≡◌, refl, ap, ◌∙◌, ◌⊎◌, inl, inr, false, none, some, List, [], ◌∷◌,
  arith, ◌==◌, All, Elem-All, Elem,
}
use whyslow.Event.Schema.{Event}
use whyslow.Ebpf.Probes.{
  Maps, Probes, Hit, sched_switch, futex_enter, futex_exit, block_rq_issue, block_rq_complete,
  probe, after, loaded, try_sched_switch, try_futex_enter, try_futex_exit, try_block_rq_issue,
  try_block_rq_complete, target_tgid, BlockStart, FutexStart, BlockIoStart,
}
use whyslow.Ebpf.History.{
  Emitted, of_switch, of_futex, of_io, earlier, Pending, begun, held, BlocksAt, ResumesAt, EntersAt,
  LeavesAt, IssuesAt, CompletesAt,
}
use whyslow.Ebpf.Invariant.{Inv}
use whyslow.Ebpf.Switch.{try_sched_switch-Inv}
use whyslow.Ebpf.Futex.{try_futex_enter-Inv, try_futex_exit-Inv}
use whyslow.Ebpf.BlockIo.{try_block_rq_issue-Inv, try_block_rq_complete-Inv}

module _ (k : Maps) where
  -- With a target set, every hit keeps the maps and the queue explained by the history.
  pub probe-Inv :
      (target : ℕ) (hits : List Hit) (s : Probes k) (hit : Hit)
      → (target == 0) ≡ false
      → Inv k target hits s
      → Inv k target (hit ∷ hits) (probe k hit s).0
  unfolding probe
  probe-Inv target hits s (sched_switch h raw) set v =
      try_sched_switch-Inv k target hits s h raw set v
  probe-Inv target hits s (futex_enter h raw) set v =
      try_futex_enter-Inv k target hits s h raw set v
  probe-Inv target hits s (futex_exit h) set v = try_futex_exit-Inv k target hits s h v
  probe-Inv target hits s (block_rq_issue h raw) set v =
      try_block_rq_issue-Inv k target hits s h raw set v
  probe-Inv target hits s (block_rq_complete h raw) set v =
      try_block_rq_complete-Inv k target hits s h raw v

  pub after-Inv :
      (target : ℕ) (s : Probes k) (hits : List Hit)
      → (target == 0) ≡ false
      → Inv k target [] s
      → Inv k target hits (after k s hits)
  unfolding after
  after-Inv target s [] set v = v
  after-Inv target s (hit ∷ older) set v =
      probe-Inv target older (after k s older) hit set (after-Inv target s older set v)

  -- Before the target is set nothing happens.
  pub probe-loaded : (hit : Hit) → (probe k hit (loaded k)).0 ≡ loaded k
  unfolding probe try_sched_switch try_futex_enter try_futex_exit try_block_rq_issue
      try_block_rq_complete target_tgid
  probe-loaded (sched_switch h none) = refl
  probe-loaded (sched_switch h (some evt)) = refl
  probe-loaded (futex_enter h none) = refl
  probe-loaded (futex_enter h (some evt)) = refl
  probe-loaded (futex_exit h) = rw (k.futexes.get-empty _, try_futex_exit) refl
  probe-loaded (block_rq_issue h none) = refl
  probe-loaded (block_rq_issue h (some evt)) = refl
  probe-loaded (block_rq_complete h none) = refl
  probe-loaded (block_rq_complete h (some evt)) = rw (k.ios.get-empty _, try_block_rq_complete) refl

  pub after-loaded : (hits : List Hit) → after k (loaded k) hits ≡ loaded k
  unfolding after
  after-loaded [] = refl
  after-loaded (hit ∷ older) = ap (λ s. (probe k hit s).0) (after-loaded older) ∙ probe-loaded hit

-- The time of a hit.
abbrev pub time_of : Hit → ℕ
time_of (sched_switch h raw) = h.ktime_ns
time_of (futex_enter h raw) = h.ktime_ns
time_of (futex_exit h) = h.ktime_ns
time_of (block_rq_issue h raw) = h.ktime_ns
time_of (block_rq_complete h raw) = h.ktime_ns

-- The clock does not run backwards along a history, newest first.
abbrev pub IsOrdered : List Hit → Type 0
IsOrdered [] = Unit
IsOrdered (hit ∷ older) = All (λ o. time_of o ≤ time_of hit) older × IsOrdered older

pub Pending-hit :
    {A : Type 0} {Starts : ℕ → A → Hit → Type 0} {Ends : ℕ → ℕ → Hit → Type 0} {key : ℕ} {start : A}
    {hits : List Hit}
    → Pending Starts Ends key start hits
    → (hit : Hit) × Elem hit hits × Starts key start hit
Pending-hit (begun {hit = hit} now) = (hit, inl refl, now)
Pending-hit (held quiet old) = let (hit, m, p) = Pending-hit old in (hit, inr m, p)

BlocksAt-time :
    (target tid : ℕ) (start : BlockStart) (hit : Hit)
    → BlocksAt target tid start hit
    → start.ts ≡ time_of hit
BlocksAt-time target tid start (sched_switch h (some evt)) p = ground (arith, p.3)
BlocksAt-time target tid start (sched_switch h none) p = absurd p
BlocksAt-time target tid start (futex_enter h raw) p = absurd p
BlocksAt-time target tid start (futex_exit h) p = absurd p
BlocksAt-time target tid start (block_rq_issue h raw) p = absurd p
BlocksAt-time target tid start (block_rq_complete h raw) p = absurd p

ResumesAt-time : (tid now : ℕ) (hit : Hit) → ResumesAt tid now hit → now ≡ time_of hit
ResumesAt-time tid now (sched_switch h (some evt)) p = p.1
ResumesAt-time tid now (sched_switch h none) p = absurd p
ResumesAt-time tid now (futex_enter h raw) p = absurd p
ResumesAt-time tid now (futex_exit h) p = absurd p
ResumesAt-time tid now (block_rq_issue h raw) p = absurd p
ResumesAt-time tid now (block_rq_complete h raw) p = absurd p

EntersAt-time :
    (target tid : ℕ) (start : FutexStart) (hit : Hit)
    → EntersAt target tid start hit
    → start.ts ≡ time_of hit
EntersAt-time target tid start (sched_switch h raw) p = absurd p
EntersAt-time target tid start (futex_enter h (some evt)) p = ground (arith, p.2)
EntersAt-time target tid start (futex_enter h none) p = absurd p
EntersAt-time target tid start (futex_exit h) p = absurd p
EntersAt-time target tid start (block_rq_issue h raw) p = absurd p
EntersAt-time target tid start (block_rq_complete h raw) p = absurd p

LeavesAt-time : (tid now : ℕ) (hit : Hit) → LeavesAt tid now hit → now ≡ time_of hit
LeavesAt-time tid now (sched_switch h raw) p = absurd p
LeavesAt-time tid now (futex_enter h raw) p = absurd p
LeavesAt-time tid now (futex_exit h) p = p.1
LeavesAt-time tid now (block_rq_issue h raw) p = absurd p
LeavesAt-time tid now (block_rq_complete h raw) p = absurd p

IssuesAt-time :
    (target key : ℕ) (start : BlockIoStart) (hit : Hit)
    → IssuesAt target key start hit
    → start.ts ≡ time_of hit
IssuesAt-time target key start (sched_switch h raw) p = absurd p
IssuesAt-time target key start (futex_enter h raw) p = absurd p
IssuesAt-time target key start (futex_exit h) p = absurd p
IssuesAt-time target key start (block_rq_issue h (some evt)) p = ground (arith, p.2)
IssuesAt-time target key start (block_rq_issue h none) p = absurd p
IssuesAt-time target key start (block_rq_complete h raw) p = absurd p

CompletesAt-time : (key now : ℕ) (hit : Hit) → CompletesAt key now hit → now ≡ time_of hit
CompletesAt-time key now (sched_switch h raw) p = absurd p
CompletesAt-time key now (futex_enter h raw) p = absurd p
CompletesAt-time key now (futex_exit h) p = absurd p
CompletesAt-time key now (block_rq_issue h raw) p = absurd p
CompletesAt-time key now (block_rq_complete h (some evt)) p = p.1
CompletesAt-time key now (block_rq_complete h none) p = absurd p

pub Emitted-pid :
    {target : ℕ} {ev : Event} {hits : List Hit} → Emitted target ev hits → ev.pid ≡ target
Emitted-pid (of_switch tid now start origin ends e) = ground (arith, e)
Emitted-pid (of_futex tid now start event_type origin ends typed e) = ground (arith, e)
Emitted-pid (of_io key now start origin ends e) = ground (arith, e)
Emitted-pid (earlier old) = Emitted-pid old

-- The hit begins a span of the event's thread, or issues the request of the event's key.
abbrev pub Begins : ℕ → Event → Hit → Type 0
Begins target ev hit =
    ((start : BlockStart) × BlocksAt target ev.tid start hit)
    ⊎ (((start : FutexStart) × EntersAt target ev.tid start hit)
        ⊎ ((start : BlockIoStart) × IssuesAt target ev.key start hit))

-- A hit of the history began the event's span, and the event's length is the time from it to the end.
abbrev pub BeganAt : ℕ → Event → List Hit → Type 0
BeganAt target ev hits =
    (hit : Hit) × Elem hit hits
    × Begins target ev hit
    × (time_of hit + ev.duration_ns ≡ ev.timestamp_ns)

began_before :
    (target : ℕ) (ev : Event) (hit : Hit) (older : List Hit) (ts now : ℕ) (first : Hit)
    → All (λ o. time_of o ≤ time_of hit) older
    → Elem first older ⊎ (first ≡ hit)
    → ts ≡ time_of first
    → now ≡ time_of hit
    → ev.timestamp_ns ≡ now
    → ev.duration_ns ≡ now - ts
    → Begins target ev first
    → BeganAt target ev (hit ∷ older)
began_before target ev hit older ts now first order (inl m) b e p q begins =
    let past = Elem-All (λ o. time_of o ≤ time_of hit) older order m in
    (first, inr m, begins, omega arith)
began_before target ev hit older ts now first order (inr same) b e p q begins =
    (first, inl same, begins, let t = ap time_of same in omega arith)

-- Under an ordered clock the length that an event states is the time between two hits: nothing is
-- cut off at zero.
pub Emitted-BeganAt :
    {target : ℕ} {ev : Event} {hits : List Hit}
    → Emitted target ev hits
    → IsOrdered hits
    → BeganAt target ev hits
Emitted-BeganAt {target = target} {ev = ev}
      (of_switch {hit = hit} {older = older} tid now start (inl old) ends e) o =
    let (first, m, b) = Pending-hit old in
    began_before target ev hit older start.ts now first o.0 (inl m)
      (BlocksAt-time target tid start first b) (ResumesAt-time tid now hit ends)
      (ap (λ (x : Event). x.timestamp_ns) e) (ap (λ (x : Event). x.duration_ns) e)
      (inl
        (start, subst (λ x. BlocksAt target x start first) (sym (ap (λ (x : Event). x.tid) e)) b))
Emitted-BeganAt {target = target} {ev = ev}
      (of_switch {hit = hit} {older = older} tid now start (inr b) ends e) o =
    began_before target ev hit older start.ts now hit o.0 (inr refl)
      (BlocksAt-time target tid start hit b) (ResumesAt-time tid now hit ends)
      (ap (λ (x : Event). x.timestamp_ns) e) (ap (λ (x : Event). x.duration_ns) e)
      (inl (start, subst (λ x. BlocksAt target x start hit) (sym (ap (λ (x : Event). x.tid) e)) b))
Emitted-BeganAt {target = target} {ev = ev}
      (of_futex {hit = hit} {older = older} tid now start event_type old ends typed e) o =
    let (first, m, b) = Pending-hit old in
    began_before target ev hit older start.ts now first o.0 (inl m)
      (EntersAt-time target tid start first b) (LeavesAt-time tid now hit ends)
      (ap (λ (x : Event). x.timestamp_ns) e) (ap (λ (x : Event). x.duration_ns) e)
      (inr (
        inl (
          start,
          subst (λ x. EntersAt target x start first) (sym (ap (λ (x : Event). x.tid) e)) b,
        )))
Emitted-BeganAt {target = target} {ev = ev}
      (of_io {hit = hit} {older = older} key now start old ends e) o =
    let (first, m, b) = Pending-hit old in
    began_before target ev hit older start.ts now first o.0 (inl m)
      (IssuesAt-time target key start first b) (CompletesAt-time key now hit ends)
      (ap (λ (x : Event). x.timestamp_ns) e) (ap (λ (x : Event). x.duration_ns) e)
      (inr (
        inr (
          start,
          subst (λ x. IssuesAt target x start first) (sym (ap (λ (x : Event). x.key) e)) b,
        )))
Emitted-BeganAt (earlier old) o =
    let (hit, m, begins, e) = Emitted-BeganAt old o.1 in (hit, inr m, begins, e)
