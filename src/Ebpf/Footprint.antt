-- ===== src/Ebpf/Footprint.antt =====
-- whyslow-ebpf/src/main.rs: which maps and keys a run of a program leaves alone.
use whyslow.Base.{
  ℕ, ◌%◌, ◌^◌, ◌≡◌, refl, ◌∙◌, inl, inr, Option, none, some, ◌==◌, Bool-cases, Option-cases,
}
use whyslow.Event.Schema.{Event, pack_block_key}
use whyslow.Ebpf.Raw.{
  TraceEventRawSchedSwitch, TraceEventRawSysEnter, TraceEventRawBlockRq,
  TraceEventRawBlockRqCompletion, task_running,
}
use whyslow.Ebpf.Kernel.{Helpers}
use whyslow.Ebpf.Probes.{
  Maps, Probes, BlockStart, FutexStart, BlockIoStart, emit, put_block, put_futex, put_io,
  switch_out, switch_in, try_sched_switch, try_futex_enter, try_futex_exit, try_block_rq_issue,
  try_block_rq_complete, not_traced, current_tgid, current_tid, event_type_of, target_tgid,
}

-- What a program other than the owner of a map may change.
abbrev pub SameBlocks : (k : Maps) → Probes k → Probes k → Type 0
SameBlocks k s t = (t.target ≡ s.target) × (t.block_start ≡ s.block_start)

abbrev pub SameFutexes : (k : Maps) → Probes k → Probes k → Type 0
SameFutexes k s t = (t.target ≡ s.target) × (t.futex_start ≡ s.futex_start)

abbrev pub SameIos : (k : Maps) → Probes k → Probes k → Type 0
SameIos k s t = (t.target ≡ s.target) × (t.blockio_start ≡ s.blockio_start)

module _ (k : Maps) where
  open k use {blocks, futexes, ios, ring}

  -- Sending an event changes the ring buffer only.
  pub emit-same :
      (ev : Event) (s : Probes k)
      → SameBlocks k s (emit k ev s) × SameFutexes k s (emit k ev s) × SameIos k s (emit k ev s)
  unfolding emit
  emit-same ev s = elim (Option-cases (ring.submit ev s.events)) [
    | inl full ↦ rw (full, emit) ((refl, refl), (refl, refl), (refl, refl))
    | inr (r, sent) ↦ rw (sent, emit) ((refl, refl), (refl, refl), (refl, refl))
  ]

  pub emit-sent :
      (ev : Event) (s : Probes k) (r : ring.Ring)
      → ring.submit ev s.events ≡ some r
      → (emit k ev s).events ≡ r
  unfolding emit
  emit-sent ev s r sent = rw (sent, emit)

  pub put_block-same :
      (tid : ℕ) (start : BlockStart) (s : Probes k)
      → SameFutexes k s (put_block k tid start s) × SameIos k s (put_block k tid start s)
  unfolding put_block
  put_block-same tid start s = elim (Option-cases (blocks.insert tid start s.block_start)) [
    | inl full ↦ rw (full, put_block) ((refl, refl), (refl, refl))
    | inr (m, put) ↦ rw (put, put_block) ((refl, refl), (refl, refl))
  ]

  pub put_futex-same :
      (tid : ℕ) (start : FutexStart) (s : Probes k)
      → SameBlocks k s (put_futex k tid start s) × SameIos k s (put_futex k tid start s)
  unfolding put_futex
  put_futex-same tid start s = elim (Option-cases (futexes.insert tid start s.futex_start)) [
    | inl full ↦ rw (full, put_futex) ((refl, refl), (refl, refl))
    | inr (m, put) ↦ rw (put, put_futex) ((refl, refl), (refl, refl))
  ]

  pub put_io-same :
      (key : ℕ) (start : BlockIoStart) (s : Probes k)
      → SameBlocks k s (put_io k key start s) × SameFutexes k s (put_io k key start s)
  unfolding put_io
  put_io-same key start s = elim (Option-cases (ios.insert key start s.blockio_start)) [
    | inl full ↦ rw (full, put_io) ((refl, refl), (refl, refl))
    | inr (m, put) ↦ rw (put, put_io) ((refl, refl), (refl, refl))
  ]

  pub switch_out-same :
      (h : Helpers) (evt : TraceEventRawSchedSwitch) (target : ℕ) (s : Probes k)
      → SameFutexes k s (switch_out k h evt target s) × SameIos k s (switch_out k h evt target s)
  unfolding switch_out
  switch_out-same h evt target s = elim (Bool-cases (evt.prev_state == task_running)) [
    | inl running ↦ rw running ((refl, refl), (refl, refl))
    | inr blocked ↦ elim (Bool-cases (current_tgid h == target)) [
      | inl ours ↦ rw (blocked, ours) (put_block-same _ _ s)
      | inr other ↦ rw (blocked, other) ((refl, refl), (refl, refl))
    ]
  ]

  pub switch_in-same :
      (h : Helpers) (evt : TraceEventRawSchedSwitch) (s : Probes k)
      → SameFutexes k s (switch_in k h evt s) × SameIos k s (switch_in k h evt s)
  unfolding switch_in
  switch_in-same h evt s = elim (Option-cases (blocks.get (evt.next_pid % 2 ^ 32) s.block_start)) [
    | inl absent ↦ rw (absent, switch_in) ((refl, refl), (refl, refl))
    | inr (start, present) ↦ rw (present, switch_in) (let e = emit-same _ _ in (e.1, e.2))
  ]

  pub try_sched_switch-same :
      (h : Helpers) (raw : Option TraceEventRawSchedSwitch) (s : Probes k)
      → SameFutexes k s (try_sched_switch k h raw s).0 × SameIos k s (try_sched_switch k h raw s).0
  unfolding try_sched_switch
  try_sched_switch-same h none s = elim (Bool-cases (target_tgid k s == 0)) [
    | inl unset ↦ rw unset ((refl, refl), (refl, refl))
    | inr set ↦ rw set ((refl, refl), (refl, refl))
  ]
  try_sched_switch-same h (some evt) s = elim (Bool-cases (target_tgid k s == 0)) [
    | inl unset ↦ rw unset ((refl, refl), (refl, refl))
    | inr set ↦
        let (f, i) = switch_out-same h evt (target_tgid k s) s in
        let (f', i') = switch_in-same h evt (switch_out k h evt (target_tgid k s) s) in
        rw set ((f'.0 ∙ f.0, f'.1 ∙ f.1), (i'.0 ∙ i.0, i'.1 ∙ i.1))
  ]

  pub try_futex_enter-same :
      (h : Helpers) (raw : Option TraceEventRawSysEnter) (s : Probes k)
      → SameBlocks k s (try_futex_enter k h raw s).0 × SameIos k s (try_futex_enter k h raw s).0
  unfolding try_futex_enter
  try_futex_enter-same h none s = elim (Bool-cases (not_traced k h s)) [
    | inl untraced ↦ rw (untraced, try_futex_enter) ((refl, refl), (refl, refl))
    | inr traced ↦ rw (traced, try_futex_enter) ((refl, refl), (refl, refl))
  ]
  try_futex_enter-same h (some evt) s = elim (Bool-cases (not_traced k h s)) [
    | inl untraced ↦ rw (untraced, try_futex_enter) ((refl, refl), (refl, refl))
    | inr traced ↦ rw (traced, try_futex_enter) (put_futex-same _ _ s)
  ]

  pub try_futex_exit-same :
      (h : Helpers) (s : Probes k)
      → SameBlocks k s (try_futex_exit k h s).0 × SameIos k s (try_futex_exit k h s).0
  unfolding try_futex_exit
  try_futex_exit-same h s = elim (Option-cases (futexes.get (current_tid h) s.futex_start)) [
    | inl absent ↦ rw (absent, try_futex_exit) ((refl, refl), (refl, refl))
    | inr (start, present) ↦ elim (Option-cases (event_type_of start.op)) [
      | inl other ↦ rw (present, other, try_futex_exit) ((refl, refl), (refl, refl))
      | inr (event_type, typed) ↦
          rw (present, typed, try_futex_exit) (let e = emit-same _ _ in (e.0, e.2))
    ]
  ]

  pub try_block_rq_issue-same :
      (h : Helpers) (raw : Option TraceEventRawBlockRq) (s : Probes k)
      → SameBlocks k s (try_block_rq_issue k h raw s).0
        × SameFutexes k s (try_block_rq_issue k h raw s).0
  unfolding try_block_rq_issue
  try_block_rq_issue-same h none s = elim (Bool-cases (not_traced k h s)) [
    | inl untraced ↦ rw (untraced, try_block_rq_issue) ((refl, refl), (refl, refl))
    | inr traced ↦ rw (traced, try_block_rq_issue) ((refl, refl), (refl, refl))
  ]
  try_block_rq_issue-same h (some evt) s = elim (Bool-cases (not_traced k h s)) [
    | inl untraced ↦ rw (untraced, try_block_rq_issue) ((refl, refl), (refl, refl))
    | inr traced ↦ rw (traced, try_block_rq_issue) (put_io-same _ _ s)
  ]

  pub try_block_rq_complete-same :
      (h : Helpers) (raw : Option TraceEventRawBlockRqCompletion) (s : Probes k)
      → SameBlocks k s (try_block_rq_complete k h raw s).0
        × SameFutexes k s (try_block_rq_complete k h raw s).0
  unfolding try_block_rq_complete
  try_block_rq_complete-same h none s = ((refl, refl), (refl, refl))
  try_block_rq_complete-same h (some evt) s =
      elim (Option-cases (ios.get (pack_block_key evt.dev evt.sector) s.blockio_start)) [
        | inl absent ↦ rw (absent, try_block_rq_complete) ((refl, refl), (refl, refl))
        | inr (start, present) ↦
            rw (present, try_block_rq_complete) (let e = emit-same _ _ in (e.0, e.1))
      ]
