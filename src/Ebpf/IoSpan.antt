-- ===== src/Ebpf/IoSpan.antt =====
-- whyslow-ebpf/src/main.rs: a block request that is issued and completed is recorded, with hits on
-- other requests in between.
use whyslow.Base.{
  ℕ, ◌-◌, ◌≡◌, ◌≢◌, refl, ap, ◌∙◌, inl, inr, false, Option, none, some, List, [], ◌∷◌, arith, ◌==◌,
  ==_refl, Bool-cases, Option-cases, All,
}
use whyslow.Event.Schema.{new, event_block_io, pack_block_key}
use whyslow.Ebpf.Raw.{TraceEventRawBlockRq, TraceEventRawBlockRqCompletion}
use whyslow.Ebpf.Kernel.{Helpers}
use whyslow.Ebpf.Probes.{
  Maps, Probes, Hit, sched_switch, futex_enter, futex_exit, block_rq_issue, block_rq_complete,
  BlockIoStart, probe, after, put_io, try_block_rq_issue, try_block_rq_complete, current_tgid,
  current_tid, current_comm, target_tgid, not_traced,
}
use whyslow.Ebpf.Footprint.{
  emit-same, emit-sent, try_sched_switch-same, try_futex_enter-same, try_futex_exit-same,
}

-- The hit is no issue and no completion of a request with the key.
abbrev pub IoMisses : ℕ → Hit → Type 0
IoMisses key (block_rq_issue h (some evt)) = pack_block_key evt.dev evt.sector ≢ key
IoMisses key (block_rq_complete h (some evt)) = pack_block_key evt.dev evt.sector ≢ key
IoMisses key _ = Unit

module _ (k : Maps) (key : ℕ) where
  open k use {ios, ring}

  put_io-other :
      (other : ℕ) (start : BlockIoStart) (s : Probes k)
      → other ≢ key
      → ios.get key (put_io k other start s).blockio_start ≡ ios.get key s.blockio_start
  unfolding put_io
  put_io-other other start s ne = elim (Option-cases (ios.insert other start s.blockio_start)) [
    | inl full ↦ rw (full, put_io)
    | inr (m, put) ↦
        let found = ios.get-insert key other start s.blockio_start m put in
        rw (put, put_io) (ground (arith, found))
  ]

  try_block_rq_issue-other :
      (h : Helpers) (raw : Option TraceEventRawBlockRq) (s : Probes k)
      → IoMisses key (block_rq_issue h raw)
      → ios.get key (try_block_rq_issue k h raw s).0.blockio_start ≡ ios.get key s.blockio_start
  unfolding try_block_rq_issue
  try_block_rq_issue-other h none s miss = elim (Bool-cases (not_traced k h s)) [
    | inl untraced ↦ rw (untraced, try_block_rq_issue)
    | inr traced ↦ rw (traced, try_block_rq_issue)
  ]
  try_block_rq_issue-other h (some evt) s miss = elim (Bool-cases (not_traced k h s)) [
    | inl untraced ↦ rw (untraced, try_block_rq_issue)
    | inr traced ↦ rw (traced, try_block_rq_issue) (put_io-other _ _ s miss)
  ]

  try_block_rq_complete-other :
      (h : Helpers) (raw : Option TraceEventRawBlockRqCompletion) (s : Probes k)
      → IoMisses key (block_rq_complete h raw)
      → ios.get key (try_block_rq_complete k h raw s).0.blockio_start ≡ ios.get key s.blockio_start
  unfolding try_block_rq_complete
  try_block_rq_complete-other h none s miss = refl
  try_block_rq_complete-other h (some evt) s miss =
      let taken = ios.get-remove key (pack_block_key evt.dev evt.sector) s.blockio_start in
      elim (Option-cases (ios.get (pack_block_key evt.dev evt.sector) s.blockio_start)) [
        | inl absent ↦ rw (absent, try_block_rq_complete)
        | inr (start, present) ↦
            rw (present, try_block_rq_complete)
              (ap (ios.get key) (emit-same k _ _).2.1 ∙ ground (arith, taken))
      ]

  probe-other :
      (hit : Hit) (s : Probes k)
      → IoMisses key hit
      → ios.get key (probe k hit s).0.blockio_start ≡ ios.get key s.blockio_start
  unfolding probe
  probe-other (sched_switch h raw) s miss = ap (ios.get key) (try_sched_switch-same k h raw s).1.1
  probe-other (futex_enter h raw) s miss = ap (ios.get key) (try_futex_enter-same k h raw s).1.1
  probe-other (futex_exit h) s miss = ap (ios.get key) (try_futex_exit-same k h s).1.1
  probe-other (block_rq_issue h raw) s miss = try_block_rq_issue-other h raw s miss
  probe-other (block_rq_complete h raw) s miss = try_block_rq_complete-other h raw s miss

  after-other :
      (s : Probes k) (hits : List Hit)
      → All (IoMisses key) hits
      → ios.get key (after k s hits).blockio_start ≡ ios.get key s.blockio_start
  unfolding after
  after-other s [] miss = refl
  after-other s (hit ∷ older) miss =
      probe-other hit (after k s older) miss.0 ∙ after-other s older miss.1

module _ (k : Maps) (s : Probes k) (h h' : Helpers) (evt : TraceEventRawBlockRq)
    (done : TraceEventRawBlockRqCompletion) (middle : List Hit) where
  open k use {ios, ring}

  abbrev request_key : ℕ
  request_key = pack_block_key evt.dev evt.sector

  abbrev issued_at : BlockIoStart
  issued_at = record {
    ts = h.ktime_ns;
    tgid = current_tgid h;
    tid = current_tid h;
    comm = current_comm h;
  }

  -- After the issue and the hits that follow it.
  abbrev pub in_flight : Probes k
  in_flight = after k (probe k (block_rq_issue h (some evt)) s).0 middle

  issue-put :
      (m : ios.Map)
      → target_tgid k s ≡ current_tgid h
      → current_tgid h ≢ 0
      → ios.insert request_key issued_at s.blockio_start ≡ some m
      → (try_block_rq_issue k h (some evt) s).0 ≡ record s { blockio_start = m }
  unfolding try_block_rq_issue put_io
  issue-put m ours set put =
      let off : (current_tgid h == 0) ≡ false = ground arith in
      rw (ours, off, ==_refl (current_tgid h), put, put_io)

  -- A block request that a traced thread issues, with room in the map, and that later completes, in
  -- whatever thread, with no other issue or completion under its key in between and room in the ring
  -- buffer, is sent as exactly one more event, of the thread that issued it, and its entry is taken out
  -- of the map.
  pub io-recorded :
      (m : ios.Map) (r : ring.Ring)
      → target_tgid k s ≡ current_tgid h
      → current_tgid h ≢ 0
      → ios.insert request_key issued_at s.blockio_start ≡ some m
      → All (IoMisses request_key) middle
      → pack_block_key done.dev done.sector ≡ request_key
      → ring.submit
          (new h'.ktime_ns
            (h'.ktime_ns - h.ktime_ns)
            request_key
            (current_tgid h)
            (current_tid h)
            event_block_io
            (current_comm h))
          in_flight.events
        ≡ some r
      → ((probe k (block_rq_complete h' (some done)) in_flight).0.events ≡ r)
        × (ios.get request_key
              (probe k (block_rq_complete h' (some done)) in_flight).0.blockio_start
            ≡ none)
  unfolding probe try_block_rq_complete
  io-recorded m r ours set put miss same sent =
      let found = ios.get-insert request_key request_key issued_at s.blockio_start m put in
      let present : ios.get request_key in_flight.blockio_start ≡ some issued_at =
        after-other k request_key (probe k (block_rq_issue h (some evt)) s).0 middle miss
        ∙ rw (issue-put m ours set put) (ground (arith, found)) in
      let taken = ios.get-remove request_key request_key in_flight.blockio_start in
      rw (same, present, try_block_rq_complete, same)
        (
          emit-sent k _ _ r sent,
          ap (ios.get request_key) (emit-same k _ _).2.1 ∙ ground (arith, taken),
        )
