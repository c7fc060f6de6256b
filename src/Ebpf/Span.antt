-- ===== src/Ebpf/Span.antt =====
-- whyslow-ebpf/src/main.rs: a blocked interval that is begun and ended is recorded, with hits of
-- other threads in between.
use whyslow.Base.{
  ℕ, ◌-◌, ◌%◌, ◌^◌, ◌≡◌, ◌≢◌, refl, ◌∙◌, false, none, some, List, [], ◌∷◌, arith, ◌==◌, All,
}
use whyslow.Event.Schema.{new, event_sched_block}
use whyslow.Ebpf.Raw.{TraceEventRawSchedSwitch, task_running}
use whyslow.Ebpf.Kernel.{Helpers}
use whyslow.Ebpf.Probes.{
  Maps, Probes, Hit, sched_switch, futex_enter, futex_exit, block_rq_issue, block_rq_complete,
  BlockStart, probe, after, switch_out, try_sched_switch, current_tgid, target_tgid,
}
use whyslow.Ebpf.Footprint.{
  try_sched_switch-same, try_futex_enter-same, try_futex_exit-same, try_block_rq_issue-same,
  try_block_rq_complete-same,
}
use whyslow.Ebpf.BlockEntry.{
  Misses, switch_out-other, switch_in-other, after-other, switch_out-put, switch_in-send,
  switch_out-events,
}

module _ (k : Maps) where
  open k use {blocks, ring}

  probe-target : (hit : Hit) (s : Probes k) → (probe k hit s).0.target ≡ s.target
  unfolding probe
  probe-target (sched_switch h raw) s = (try_sched_switch-same k h raw s).0.0
  probe-target (futex_enter h raw) s = (try_futex_enter-same k h raw s).0.0
  probe-target (futex_exit h) s = (try_futex_exit-same k h s).0.0
  probe-target (block_rq_issue h raw) s = (try_block_rq_issue-same k h raw s).0.0
  probe-target (block_rq_complete h raw) s = (try_block_rq_complete-same k h raw s).0.0

  after-target : (s : Probes k) (hits : List Hit) → (after k s hits).target ≡ s.target
  unfolding after
  after-target s [] = refl
  after-target s (hit ∷ older) = probe-target hit (after k s older) ∙ after-target s older

  target_tgid-after :
      (s : Probes k) (hits : List Hit) → target_tgid k (after k s hits) ≡ target_tgid k s
  unfolding target_tgid
  target_tgid-after s hits = rw (after-target s hits)

  module _ (s : Probes k) (h h' : Helpers) (evt evt' : TraceEventRawSchedSwitch)
      (middle : List Hit) where
    abbrev blocked_thread : ℕ
    blocked_thread = evt.prev_pid % 2 ^ 32

    abbrev blocked_at : BlockStart
    blocked_at = record { ts = h.ktime_ns; tgid = current_tgid h; comm = evt.prev_comm }

    -- After the switch out and the hits that follow it.
    abbrev meanwhile : Probes k
    meanwhile = after k (probe k (sched_switch h (some evt)) s).0 middle

    meanwhile-target : target_tgid k meanwhile ≡ target_tgid k s
    unfolding target_tgid
    meanwhile-target = rw (
      after-target (probe k (sched_switch h (some evt)) s).0 middle,
      probe-target (sched_switch h (some evt)) s,
    )

    meanwhile-entry :
        (m : blocks.Map)
        → target_tgid k s ≡ current_tgid h
        → current_tgid h ≢ 0
        → evt.prev_state ≢ task_running
        → blocks.insert blocked_thread blocked_at s.block_start ≡ some m
        → evt.next_pid % 2 ^ 32 ≢ blocked_thread
        → All (Misses blocked_thread) middle
        → blocks.get blocked_thread meanwhile.block_start ≡ some blocked_at
    unfolding probe try_sched_switch
    meanwhile-entry m ours set blocked put away miss =
        let off : (current_tgid h == 0) ≡ false = ground arith in
        let found =
          blocks.get-insert blocked_thread blocked_thread blocked_at s.block_start m put in
        after-other k blocked_thread (probe k (sched_switch h (some evt)) s).0 middle miss
        ∙ rw (ours, off, switch_out-put k blocked_thread h evt s m blocked put)
            (switch_in-other k blocked_thread h evt (record s { block_start = m }) away
              ∙ ground (arith, found))

    -- A thread of the target that is switched out blocked, with room in the map, and later switched in,
    -- with no switch of that thread in between and room in the ring buffer, has exactly that interval
    -- sent as one more event, and its entry is taken out of the map.
    pub switch-recorded :
        (m : blocks.Map) (r : ring.Ring)
        → target_tgid k s ≡ current_tgid h
        → current_tgid h ≢ 0
        → evt.prev_state ≢ task_running
        → blocks.insert blocked_thread blocked_at s.block_start ≡ some m
        → evt.next_pid % 2 ^ 32 ≢ blocked_thread
        → All (Misses blocked_thread) middle
        → evt'.prev_pid % 2 ^ 32 ≢ blocked_thread
        → evt'.next_pid % 2 ^ 32 ≡ blocked_thread
        → ring.submit
            (new h'.ktime_ns
              (h'.ktime_ns - h.ktime_ns)
              0
              (current_tgid h)
              blocked_thread
              event_sched_block
              evt.prev_comm)
            meanwhile.events
          ≡ some r
        → ((probe k (sched_switch h' (some evt')) meanwhile).0.events ≡ r)
          × (blocks.get blocked_thread
                (probe k (sched_switch h' (some evt')) meanwhile).0.block_start
              ≡ none)
    unfolding probe try_sched_switch
    switch-recorded m r ours set blocked put away miss apart next sent =
        let target = target_tgid k meanwhile in
        let off : (target_tgid k meanwhile == 0) ≡ false =
          let same = meanwhile-target in ground arith in
        rw off (
          switch_in-send k blocked_thread h' evt' (switch_out k h' evt' target meanwhile) blocked_at
            r next
            (switch_out-other k blocked_thread h' evt' target meanwhile apart
              ∙ meanwhile-entry m ours set blocked put away miss)
            (rw (switch_out-events k blocked_thread h' evt' target meanwhile) sent))
