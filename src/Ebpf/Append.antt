-- ===== src/Ebpf/Append.antt =====
-- whyslow-ebpf/src/main.rs: the programs only append to the ring buffer.
use mathlib.Core.List.{append-nil, append_assoc}
use whyslow.Base.{
  ℕ, ◌%◌, ◌^◌, ◌≡◌, refl, sym, ap, ◌∙◌, inl, inr, true, false, Option, none, some, List, [], ◌∷◌,
  ◌++◌, ◌==◌, arith, Bool, if◌then◌else◌, Option-cases,
}
use whyslow.Base.Result.{Result, ok, err}
use whyslow.Event.Schema.{Event, pack_block_key}
use whyslow.Ebpf.Raw.{
  TraceEventRawSchedSwitch, TraceEventRawSysEnter, TraceEventRawBlockRq,
  TraceEventRawBlockRqCompletion,
}
use whyslow.Ebpf.Kernel.{Helpers}
use whyslow.Ebpf.Probes.{
  Maps, Probes, Hit, sched_switch, futex_enter, futex_exit, block_rq_issue, block_rq_complete, emit,
  switch_out, switch_in, put_futex, put_io, current_tid, event_type_of, target_tgid, not_traced,
  try_sched_switch, try_futex_enter, try_futex_exit, try_block_rq_issue, try_block_rq_complete,
  probe, after,
}
use whyslow.Ebpf.BlockEntry.{switch_out-events}
use whyslow.Ebpf.Exact.{emit-queued, put_futex-events, put_io-events}

module _ (k : Maps) where
  open k use {blocks, futexes, ios, ring}

  -- What was submitted before stands in front of what is submitted later.
  abbrev pub Extends : ring.Ring → ring.Ring → Type 0
  Extends r r' = (more : List Event) × (ring.queued r' ≡ ring.queued r ++ more)

  pub same-Extends : (r r' : ring.Ring) → r' ≡ r → Extends r r'
  same-Extends r r' e = ([], ap ring.queued e ∙ sym (append-nil (ring.queued r)))

  pub then-Extends : (r r' r'' : ring.Ring) → Extends r r' → Extends r' r'' → Extends r r''
  then-Extends r r' r'' (more, e) (more', e') =
      (more ++ more', e' ∙ ap (λ q. q ++ more') e ∙ append_assoc (ring.queued r) more more')

  emit-Extends : (ev : Event) (s : Probes k) → Extends s.events (emit k ev s).events
  unfolding emit
  emit-Extends ev s = elim (Option-cases (ring.submit ev s.events)) [
    | inl full ↦ same-Extends s.events _ (rw (full, emit) refl)
    | inr (r, sent) ↦ (ev ∷ [], emit-queued k ev s (λ full. ground arith))
  ]

  if-Extends :
      (b : Bool) (r : ring.Ring) (x y : Probes k × Result ℕ ℕ)
      → Extends r x.0.events
      → Extends r y.0.events
      → Extends r (if b then x else y).0.events
  if-Extends true r x y this that = this
  if-Extends false r x y this that = that

  switch_in-Extends :
      (h : Helpers) (s : Probes k) (evt : TraceEventRawSchedSwitch)
      → Extends s.events (switch_in k h evt s).events
  unfolding switch_in
  switch_in-Extends h s evt =
      elim (Option-cases (blocks.get (evt.next_pid % 2 ^ 32) s.block_start)) [
        | inl none_there ↦ same-Extends s.events _ (rw (none_there, switch_in) refl)
        | inr (start, there) ↦ rw (there, switch_in) (emit-Extends _ (record s { block_start = _ }))
      ]

  module _ (h : Helpers) (s : Probes k) where
    passed_by : Extends s.events s.events
    passed_by = same-Extends s.events s.events refl

    try_futex_exit-Extends : Extends s.events (try_futex_exit k h s).0.events
    unfolding try_futex_exit
    try_futex_exit-Extends = elim (Option-cases (futexes.get (current_tid h) s.futex_start)) [
      | inl none_there ↦ same-Extends s.events _ (rw (none_there, try_futex_exit) refl)
      | inr (start, there) ↦ elim (Option-cases (event_type_of start.op)) [
        | inl other ↦ same-Extends s.events _ (rw (there, other, try_futex_exit) refl)
        | inr (event_type, typed) ↦
            rw (there, typed, try_futex_exit) (emit-Extends _ (record s { futex_start = _ }))
      ]
    ]

    try_block_rq_complete-Extends :
        (raw : Option TraceEventRawBlockRqCompletion)
        → Extends s.events (try_block_rq_complete k h raw s).0.events
    unfolding try_block_rq_complete
    try_block_rq_complete-Extends none = passed_by
    try_block_rq_complete-Extends (some evt) =
        elim (Option-cases (ios.get (pack_block_key evt.dev evt.sector) s.blockio_start)) [
          | inl none_there ↦ same-Extends s.events _ (rw (none_there, try_block_rq_complete) refl)
          | inr (start, there) ↦
              rw (there, try_block_rq_complete) (emit-Extends _ (record s { blockio_start = _ }))
        ]

    try_sched_switch-Extends :
        (raw : Option TraceEventRawSchedSwitch)
        → Extends s.events (try_sched_switch k h raw s).0.events
    unfolding try_sched_switch
    try_sched_switch-Extends none =
        if-Extends (target_tgid k s == 0) s.events (s, ok 0) (s, err 1) passed_by passed_by
    try_sched_switch-Extends (some evt) =
        let out = switch_out k h evt (target_tgid k s) s in
        if-Extends (target_tgid k s == 0) s.events (s, ok 0) (switch_in k h evt out, ok 0) passed_by
          (then-Extends s.events out.events (switch_in k h evt out).events
            (same-Extends s.events out.events (switch_out-events k 0 h evt (target_tgid k s) s))
            (switch_in-Extends h out evt))

    try_futex_enter-Extends :
        (raw : Option TraceEventRawSysEnter) → Extends s.events (try_futex_enter k h raw s).0.events
    unfolding try_futex_enter
    try_futex_enter-Extends none =
        if-Extends (not_traced k h s) s.events (s, ok 0) (s, err 1) passed_by passed_by
    try_futex_enter-Extends (some evt) =
        if-Extends (not_traced k h s) s.events (s, ok 0) (put_futex k (current_tid h) _ s, ok 0)
          passed_by (same-Extends s.events _ (put_futex-events k (current_tid h) _ s))

    try_block_rq_issue-Extends :
        (raw : Option TraceEventRawBlockRq)
        → Extends s.events (try_block_rq_issue k h raw s).0.events
    unfolding try_block_rq_issue
    try_block_rq_issue-Extends none =
        if-Extends (not_traced k h s) s.events (s, ok 0) (s, err 1) passed_by passed_by
    try_block_rq_issue-Extends (some evt) =
        if-Extends (not_traced k h s) s.events (s, ok 0)
          (put_io k (pack_block_key evt.dev evt.sector) _ s, ok 0) passed_by
          (same-Extends s.events _ (put_io-events k (pack_block_key evt.dev evt.sector) _ s))

  probe-Extends : (hit : Hit) (s : Probes k) → Extends s.events (probe k hit s).0.events
  unfolding probe
  probe-Extends (sched_switch h raw) s = try_sched_switch-Extends h s raw
  probe-Extends (futex_enter h raw) s = try_futex_enter-Extends h s raw
  probe-Extends (futex_exit h) s = try_futex_exit-Extends h s
  probe-Extends (block_rq_issue h raw) s = try_block_rq_issue-Extends h s raw
  probe-Extends (block_rq_complete h raw) s = try_block_rq_complete-Extends h s raw

  -- Later hits leave in place what the earlier ones submitted.
  pub after-Extends :
      (s : Probes k) (newer older : List Hit)
      → Extends (after k s older).events (after k s (newer ++ older)).events
  unfolding after
  after-Extends s [] older = same-Extends _ _ refl
  after-Extends s (hit ∷ newer) older =
      then-Extends (after k s older).events (after k s (newer ++ older)).events _
        (after-Extends s newer older) (probe-Extends hit (after k s (newer ++ older)))
