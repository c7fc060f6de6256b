-- ===== src/Ebpf/Ends.antt =====
-- whyslow-ebpf/src/main.rs: what `try_futex_exit` and `try_block_rq_complete` do to the maps and the
-- ring buffer, entry by entry, where the kernel refuses nothing.
use mathlib.Core.Option
use whyslow.Base.{
  ℕ, ◌≡◌, ◌≢◌, ap, ◌∙◌, inl, inr, none, some, arith, ◌==◌, Option-cases, if◌then◌else◌,
}
use whyslow.Event.Schema.{Event, pack_block_key}
use whyslow.Ebpf.Raw.{TraceEventRawBlockRqCompletion}
use whyslow.Ebpf.Kernel.{Helpers}
use whyslow.Ebpf.Probes.{
  Maps, Probes, try_futex_exit, try_block_rq_complete, current_tid, event_type_of,
}
use whyslow.Ebpf.Footprint.{emit-same}
use whyslow.Ebpf.Reference.{futex_event, io_event, noted}
use whyslow.Ebpf.Exact.{emit-queued}

module _ (k : Maps) (h : Helpers) (s : Probes k) where
  open k use {futexes, ios, ring}

  pub try_futex_exit-get :
      (tid : ℕ)
      → futexes.get tid (try_futex_exit k h s).0.futex_start
        ≡ (if tid == current_tid h then none else futexes.get tid s.futex_start)
  unfolding try_futex_exit
  try_futex_exit-get tid =
      let taken = futexes.get-remove tid (current_tid h) s.futex_start in
      elim (Option-cases (futexes.get (current_tid h) s.futex_start)) [
        | inl absent ↦ rw (absent, try_futex_exit) (ground (arith, absent))
        | inr (start, present) ↦ elim (Option-cases (event_type_of start.op)) [
          | inl other ↦ rw (present, other, try_futex_exit) taken
          | inr (event_type, typed) ↦
              rw (present, typed, try_futex_exit)
                (ap (futexes.get tid) (emit-same k _ _).1.1 ∙ taken)
        ]
      ]

  pub try_futex_exit-queued :
      ((ev : Event) → ring.submit ev s.events ≢ none)
      → ring.queued (try_futex_exit k h s).0.events
        ≡ noted
            (ring.queued s.events)
            (Option.bind (futexes.get (current_tid h) s.futex_start) (futex_event h))
  unfolding try_futex_exit Option.bind
  try_futex_exit-queued room = elim (Option-cases (futexes.get (current_tid h) s.futex_start)) [
    | inl absent ↦ rw (absent, try_futex_exit)
    | inr (start, present) ↦ elim (Option-cases (event_type_of start.op)) [
      | inl other ↦ rw (present, other, try_futex_exit)
      | inr (event_type, typed) ↦ rw (present, typed, try_futex_exit) (emit-queued k _ _ (room _))
    ]
  ]

  module _ (evt : TraceEventRawBlockRqCompletion) where
    abbrev completed_key : ℕ
    completed_key = pack_block_key evt.dev evt.sector

    pub try_block_rq_complete-get :
        (key : ℕ)
        → ios.get key (try_block_rq_complete k h (some evt) s).0.blockio_start
          ≡ (if key == completed_key then none else ios.get key s.blockio_start)
    unfolding try_block_rq_complete
    try_block_rq_complete-get key =
        let taken = ios.get-remove key completed_key s.blockio_start in
        elim (Option-cases (ios.get completed_key s.blockio_start)) [
          | inl absent ↦ rw (absent, try_block_rq_complete) (ground (arith, absent))
          | inr (start, present) ↦
              rw (present, try_block_rq_complete) (ap (ios.get key) (emit-same k _ _).2.1 ∙ taken)
        ]

    pub try_block_rq_complete-queued :
        ((ev : Event) → ring.submit ev s.events ≢ none)
        → ring.queued (try_block_rq_complete k h (some evt) s).0.events
          ≡ noted
              (ring.queued s.events)
              (Option.map (io_event h completed_key) (ios.get completed_key s.blockio_start))
    unfolding try_block_rq_complete
    try_block_rq_complete-queued room =
        elim (Option-cases (ios.get completed_key s.blockio_start)) [
          | inl absent ↦ rw (absent, try_block_rq_complete)
          | inr (start, present) ↦ rw (present, try_block_rq_complete) (emit-queued k _ _ (room _))
        ]
