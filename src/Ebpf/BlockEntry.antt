-- ===== src/Ebpf/BlockEntry.antt =====
-- whyslow-ebpf/src/main.rs: the entry of one thread in `BLOCK_START`, under hits that miss the thread
-- and at its own two ends.
use whyslow.Base.{
  ℕ, ◌-◌, ◌%◌, ◌^◌, ◌≡◌, ◌≢◌, refl, ap, ◌∙◌, inl, inr, false, Option, none, some, List, [], ◌∷◌,
  arith, ◌==◌, ==_refl, Bool-cases, Option-cases, All,
}
use whyslow.Event.Schema.{new, event_sched_block}
use whyslow.Ebpf.Raw.{TraceEventRawSchedSwitch, task_running}
use whyslow.Ebpf.Kernel.{Helpers}
use whyslow.Ebpf.Probes.{
  Maps, Probes, Hit, sched_switch, futex_enter, futex_exit, block_rq_issue, block_rq_complete,
  BlockStart, probe, after, put_block, switch_out, switch_in, try_sched_switch, current_tgid,
  target_tgid,
}
use whyslow.Ebpf.Footprint.{
  emit-same, emit-sent, try_futex_enter-same, try_futex_exit-same, try_block_rq_issue-same,
  try_block_rq_complete-same,
}

-- The hit neither takes the thread off a CPU nor brings it onto one.
abbrev pub Misses : ℕ → Hit → Type 0
Misses tid (sched_switch h (some evt)) =
    (evt.prev_pid % 2 ^ 32 ≢ tid) × (evt.next_pid % 2 ^ 32 ≢ tid)
Misses tid _ = Unit

module _ (k : Maps) (tid : ℕ) where
  open k use {blocks, ring}

  put_block-other :
      (prev : ℕ) (start : BlockStart) (s : Probes k)
      → prev ≢ tid
      → blocks.get tid (put_block k prev start s).block_start ≡ blocks.get tid s.block_start
  unfolding put_block
  put_block-other prev start s ne = elim (Option-cases (blocks.insert prev start s.block_start)) [
    | inl full ↦ rw (full, put_block)
    | inr (m, put) ↦
        let found = blocks.get-insert tid prev start s.block_start m put in
        rw (put, put_block) (ground (arith, found))
  ]

  pub switch_out-other :
      (h : Helpers) (evt : TraceEventRawSchedSwitch) (target : ℕ) (s : Probes k)
      → evt.prev_pid % 2 ^ 32 ≢ tid
      → blocks.get tid (switch_out k h evt target s).block_start ≡ blocks.get tid s.block_start
  unfolding switch_out
  switch_out-other h evt target s ne = elim (Bool-cases (evt.prev_state == task_running)) [
    | inl running ↦ rw running
    | inr blocked ↦ elim (Bool-cases (current_tgid h == target)) [
      | inl ours ↦ rw (blocked, ours) (put_block-other _ _ s ne)
      | inr other ↦ rw (blocked, other)
    ]
  ]

  pub switch_in-other :
      (h : Helpers) (evt : TraceEventRawSchedSwitch) (s : Probes k)
      → evt.next_pid % 2 ^ 32 ≢ tid
      → blocks.get tid (switch_in k h evt s).block_start ≡ blocks.get tid s.block_start
  unfolding switch_in
  switch_in-other h evt s ne =
      elim (Option-cases (blocks.get (evt.next_pid % 2 ^ 32) s.block_start)) [
        | inl absent ↦ rw (absent, switch_in)
        | inr (start, present) ↦
            rw (present, switch_in)
              (let taken = blocks.get-remove tid (evt.next_pid % 2 ^ 32) s.block_start in
                ap (blocks.get tid) (emit-same k _ _).0.1 ∙ ground (arith, taken))
      ]

  try_sched_switch-other :
      (h : Helpers) (raw : Option TraceEventRawSchedSwitch) (s : Probes k)
      → Misses tid (sched_switch h raw)
      → blocks.get tid (try_sched_switch k h raw s).0.block_start ≡ blocks.get tid s.block_start
  unfolding try_sched_switch
  try_sched_switch-other h none s miss = elim (Bool-cases (target_tgid k s == 0)) [
    | inl unset ↦ rw unset
    | inr set ↦ rw set
  ]
  try_sched_switch-other h (some evt) s miss = elim (Bool-cases (target_tgid k s == 0)) [
    | inl unset ↦ rw unset
    | inr set ↦ rw set (
        switch_in-other h evt (switch_out k h evt (target_tgid k s) s) miss.1
        ∙ switch_out-other h evt (target_tgid k s) s miss.0)
  ]

  probe-other :
      (hit : Hit) (s : Probes k)
      → Misses tid hit
      → blocks.get tid (probe k hit s).0.block_start ≡ blocks.get tid s.block_start
  unfolding probe
  probe-other (sched_switch h raw) s miss = try_sched_switch-other h raw s miss
  probe-other (futex_enter h raw) s miss = let e = try_futex_enter-same k h raw s in rw e.0.1
  probe-other (futex_exit h) s miss = let e = try_futex_exit-same k h s in rw e.0.1
  probe-other (block_rq_issue h raw) s miss = let e = try_block_rq_issue-same k h raw s in rw e.0.1
  probe-other (block_rq_complete h raw) s miss =
      let e = try_block_rq_complete-same k h raw s in rw e.0.1

  pub after-other :
      (s : Probes k) (hits : List Hit)
      → All (Misses tid) hits
      → blocks.get tid (after k s hits).block_start ≡ blocks.get tid s.block_start
  unfolding after
  after-other s [] miss = refl
  after-other s (hit ∷ older) miss =
      probe-other hit (after k s older) miss.0 ∙ after-other s older miss.1

  -- A switch out of the blocked thread, where the map has room.
  pub switch_out-put :
      (h : Helpers) (evt : TraceEventRawSchedSwitch) (s : Probes k) (m : blocks.Map)
      → evt.prev_state ≢ task_running
      → blocks.insert
          (evt.prev_pid % 2 ^ 32)
          (record { ts = h.ktime_ns; tgid = current_tgid h; comm = evt.prev_comm })
          s.block_start
        ≡ some m
      → switch_out k h evt (current_tgid h) s ≡ record s { block_start = m }
  unfolding switch_out put_block
  switch_out-put h evt s m blocked put =
      let off : (evt.prev_state == task_running) ≡ false = ground arith in
      rw (off, ==_refl (current_tgid h), put, put_block)

  -- The switch in of a thread with an entry, where the ring buffer has room.
  pub switch_in-send :
      (h : Helpers) (evt : TraceEventRawSchedSwitch) (s : Probes k) (start : BlockStart)
      (r : ring.Ring)
      → evt.next_pid % 2 ^ 32 ≡ tid
      → blocks.get tid s.block_start ≡ some start
      → ring.submit
          (new h.ktime_ns (h.ktime_ns - start.ts) 0 start.tgid tid event_sched_block start.comm)
          s.events
        ≡ some r
      → ((switch_in k h evt s).events ≡ r)
        × (blocks.get tid (switch_in k h evt s).block_start ≡ none)
  unfolding switch_in
  switch_in-send h evt s start r next present sent =
      let taken = blocks.get-remove tid tid s.block_start in
      rw (next, present, switch_in, next)
        (emit-sent k _ _ r sent, ap (blocks.get tid) (emit-same k _ _).0.1 ∙ ground (arith, taken))

  pub switch_out-events :
      (h : Helpers) (evt : TraceEventRawSchedSwitch) (target : ℕ) (s : Probes k)
      → (switch_out k h evt target s).events ≡ s.events
  unfolding switch_out put_block
  switch_out-events h evt target s = elim (Bool-cases (evt.prev_state == task_running)) [
    | inl running ↦ rw running
    | inr blocked ↦ elim (Bool-cases (current_tgid h == target)) [
      | inl ours ↦
          elim (Option-cases (
            blocks.insert (evt.prev_pid % 2 ^ 32)
              (record { ts = h.ktime_ns; tgid = current_tgid h; comm = evt.prev_comm })
              s.block_start)) [
                | inl full ↦ rw (blocked, ours, full, put_block)
                | inr (m, put) ↦ rw (blocked, ours, put, put_block)
              ]
      | inr other ↦ rw (blocked, other)
    ]
  ]
