-- ===== src/Ebpf/FutexSpan.antt =====
-- whyslow-ebpf/src/main.rs: a futex call that is entered and left is recorded, with hits of other
-- threads in between.
use whyslow.Base.{
  ℕ, ◌-◌, ◌%◌, ◌^◌, ◌≡◌, ◌≢◌, refl, ap, ◌∙◌, inl, inr, false, Option, none, some, List, [], ◌∷◌,
  arith, ◌==◌, ==_refl, Bool-cases, Option-cases, All,
}
use whyslow.Event.Schema.{new}
use whyslow.Ebpf.Raw.{TraceEventRawSysEnter}
use whyslow.Ebpf.Kernel.{Helpers}
use whyslow.Ebpf.Probes.{
  Maps, Probes, Hit, sched_switch, futex_enter, futex_exit, block_rq_issue, block_rq_complete,
  FutexStart, probe, after, put_futex, try_futex_enter, try_futex_exit, current_tgid, current_tid,
  current_comm, target_tgid, not_traced, event_type_of,
}
use whyslow.Ebpf.Footprint.{
  emit-same, emit-sent, try_sched_switch-same, try_block_rq_issue-same, try_block_rq_complete-same,
}

-- The hit is no entry into a futex call, and no exit from one, of the thread.
abbrev pub FutexMisses : ℕ → Hit → Type 0
FutexMisses tid (futex_enter h raw) = current_tid h ≢ tid
FutexMisses tid (futex_exit h) = current_tid h ≢ tid
FutexMisses tid _ = Unit

module _ (k : Maps) (tid : ℕ) where
  open k use {futexes, ring}

  put_futex-other :
      (caller : ℕ) (start : FutexStart) (s : Probes k)
      → caller ≢ tid
      → futexes.get tid (put_futex k caller start s).futex_start ≡ futexes.get tid s.futex_start
  unfolding put_futex
  put_futex-other caller start s ne =
      elim (Option-cases (futexes.insert caller start s.futex_start)) [
        | inl full ↦ rw (full, put_futex)
        | inr (m, put) ↦
            let found = futexes.get-insert tid caller start s.futex_start m put in
            rw (put, put_futex) (ground (arith, found))
      ]

  try_futex_enter-other :
      (h : Helpers) (raw : Option TraceEventRawSysEnter) (s : Probes k)
      → current_tid h ≢ tid
      → futexes.get tid (try_futex_enter k h raw s).0.futex_start ≡ futexes.get tid s.futex_start
  unfolding try_futex_enter
  try_futex_enter-other h none s ne = elim (Bool-cases (not_traced k h s)) [
    | inl untraced ↦ rw (untraced, try_futex_enter)
    | inr traced ↦ rw (traced, try_futex_enter)
  ]
  try_futex_enter-other h (some evt) s ne = elim (Bool-cases (not_traced k h s)) [
    | inl untraced ↦ rw (untraced, try_futex_enter)
    | inr traced ↦ rw (traced, try_futex_enter) (put_futex-other _ _ s ne)
  ]

  try_futex_exit-other :
      (h : Helpers) (s : Probes k)
      → current_tid h ≢ tid
      → futexes.get tid (try_futex_exit k h s).0.futex_start ≡ futexes.get tid s.futex_start
  unfolding try_futex_exit
  try_futex_exit-other h s ne =
      let taken = futexes.get-remove tid (current_tid h) s.futex_start in
      elim (Option-cases (futexes.get (current_tid h) s.futex_start)) [
        | inl absent ↦ rw (absent, try_futex_exit)
        | inr (start, present) ↦ elim (Option-cases (event_type_of start.op)) [
          | inl other ↦ rw (present, other, try_futex_exit) (ground (arith, taken))
          | inr (event_type, typed) ↦
              rw (present, typed, try_futex_exit)
                (ap (futexes.get tid) (emit-same k _ _).1.1 ∙ ground (arith, taken))
        ]
      ]

  probe-other :
      (hit : Hit) (s : Probes k)
      → FutexMisses tid hit
      → futexes.get tid (probe k hit s).0.futex_start ≡ futexes.get tid s.futex_start
  unfolding probe
  probe-other (sched_switch h raw) s miss =
      ap (futexes.get tid) (try_sched_switch-same k h raw s).0.1
  probe-other (futex_enter h raw) s miss = try_futex_enter-other h raw s miss
  probe-other (futex_exit h) s miss = try_futex_exit-other h s miss
  probe-other (block_rq_issue h raw) s miss =
      ap (futexes.get tid) (try_block_rq_issue-same k h raw s).1.1
  probe-other (block_rq_complete h raw) s miss =
      ap (futexes.get tid) (try_block_rq_complete-same k h raw s).1.1

  after-other :
      (s : Probes k) (hits : List Hit)
      → All (FutexMisses tid) hits
      → futexes.get tid (after k s hits).futex_start ≡ futexes.get tid s.futex_start
  unfolding after
  after-other s [] miss = refl
  after-other s (hit ∷ older) miss =
      probe-other hit (after k s older) miss.0 ∙ after-other s older miss.1

module _ (k : Maps) (s : Probes k) (h h' : Helpers) (evt : TraceEventRawSysEnter)
    (middle : List Hit) where
  open k use {futexes, ring}

  abbrev entered_at : FutexStart
  entered_at = record {
    ts = h.ktime_ns;
    uaddr = evt.arg0;
    op = evt.arg1 % 2 ^ 32;
    tgid = current_tgid h;
    comm = current_comm h;
  }

  -- After the entry and the hits that follow it.
  abbrev pub in_call : Probes k
  in_call = after k (probe k (futex_enter h (some evt)) s).0 middle

  enter-put :
      (m : futexes.Map)
      → target_tgid k s ≡ current_tgid h
      → current_tgid h ≢ 0
      → futexes.insert (current_tid h) entered_at s.futex_start ≡ some m
      → (try_futex_enter k h (some evt) s).0 ≡ record s { futex_start = m }
  unfolding try_futex_enter put_futex
  enter-put m ours set put =
      let off : (current_tgid h == 0) ≡ false = ground arith in
      rw (ours, off, ==_refl (current_tgid h), put, put_futex)

  -- A traced thread that enters a futex call of a recorded operation, with room in the map, and later
  -- leaves it, with no other entry or exit of that thread in between and room in the ring buffer, has
  -- exactly that call sent as one more event, and its entry is taken out of the map.
  pub futex-recorded :
      (m : futexes.Map) (r : ring.Ring) (event_type : ℕ)
      → target_tgid k s ≡ current_tgid h
      → current_tgid h ≢ 0
      → futexes.insert (current_tid h) entered_at s.futex_start ≡ some m
      → All (FutexMisses (current_tid h)) middle
      → current_tid h' ≡ current_tid h
      → event_type_of (evt.arg1 % 2 ^ 32) ≡ some event_type
      → ring.submit
          (new h'.ktime_ns
            (h'.ktime_ns - h.ktime_ns)
            evt.arg0
            (current_tgid h)
            (current_tid h)
            event_type
            (current_comm h))
          in_call.events
        ≡ some r
      → ((probe k (futex_exit h') in_call).0.events ≡ r)
        × (futexes.get (current_tid h) (probe k (futex_exit h') in_call).0.futex_start ≡ none)
  unfolding probe try_futex_exit
  futex-recorded m r event_type ours set put miss same typed sent =
      let found =
        futexes.get-insert (current_tid h) (current_tid h) entered_at s.futex_start m put in
      let present : futexes.get (current_tid h) in_call.futex_start ≡ some entered_at =
        after-other k (current_tid h) (probe k (futex_enter h (some evt)) s).0 middle miss
        ∙ rw (enter-put m ours set put) (ground (arith, found)) in
      let taken = futexes.get-remove (current_tid h) (current_tid h) in_call.futex_start in
      rw (same, present, typed, try_futex_exit, same)
        (
          emit-sent k _ _ r sent,
          ap (futexes.get (current_tid h)) (emit-same k _ _).1.1 ∙ ground (arith, taken),
        )
