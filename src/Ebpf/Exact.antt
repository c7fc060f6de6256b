-- ===== src/Ebpf/Exact.antt =====
-- whyslow-ebpf/src/main.rs: what the parts of the programs do to the maps and the ring buffer, entry
-- by entry, where the kernel refuses nothing.
use mathlib.Core.Option
use whyslow.Base.{
  ℕ, ◌%◌, ◌^◌, ◌≡◌, ◌≢◌, ap, ◌∙◌, inl, inr, none, some, [], ◌∷◌, ◌++◌, arith, ◌==◌, ==→eq,
  Bool-cases, Option-cases, if◌then◌else◌,
}
use whyslow.Event.Schema.{Event}
use whyslow.Ebpf.Raw.{TraceEventRawSchedSwitch, task_running}
use whyslow.Ebpf.Kernel.{Helpers}
use whyslow.Ebpf.Probes.{
  Maps, Probes, sched_switch, BlockStart, FutexStart, BlockIoStart, emit, put_block, put_futex,
  put_io, switch_out, switch_in, current_tgid,
}
use whyslow.Ebpf.Footprint.{emit-same}
use whyslow.Ebpf.Reference.{block_begun, block_event, noted}

module _ (k : Maps) where
  open k use {blocks, futexes, ios, ring}

  -- Each map and the ring buffer have room for one more.
  pub record HasRoom (s : Probes k) : Type 0 where
    pub blocks_room : (tid : ℕ) (start : BlockStart) → blocks.insert tid start s.block_start ≢ none
    pub futexes_room :
        (tid : ℕ) (start : FutexStart) → futexes.insert tid start s.futex_start ≢ none
    pub ios_room : (key : ℕ) (start : BlockIoStart) → ios.insert key start s.blockio_start ≢ none
    pub ring_room : (ev : Event) → ring.submit ev s.events ≢ none

  pub emit-queued :
      (ev : Event) (s : Probes k)
      → ring.submit ev s.events ≢ none
      → ring.queued (emit k ev s).events ≡ ring.queued s.events ++ ev ∷ []
  unfolding emit
  emit-queued ev s room = elim (Option-cases (ring.submit ev s.events)) [
    | inl full ↦ absurd (room full)
    | inr (r, sent) ↦ rw (sent, emit) (ring.queued-submit ev s.events r sent)
  ]

  pub put_block-get :
      (prev : ℕ) (start : BlockStart) (s : Probes k)
      → blocks.insert prev start s.block_start ≢ none
      → (tid : ℕ)
      → blocks.get tid (put_block k prev start s).block_start
        ≡ (if tid == prev then some start else blocks.get tid s.block_start)
  unfolding put_block
  put_block-get prev start s room tid =
      elim (Option-cases (blocks.insert prev start s.block_start)) [
        | inl full ↦ absurd (room full)
        | inr (m, put) ↦ rw (put, put_block) (blocks.get-insert tid prev start s.block_start m put)
      ]

  pub put_futex-get :
      (caller : ℕ) (start : FutexStart) (s : Probes k)
      → futexes.insert caller start s.futex_start ≢ none
      → (tid : ℕ)
      → futexes.get tid (put_futex k caller start s).futex_start
        ≡ (if tid == caller then some start else futexes.get tid s.futex_start)
  unfolding put_futex
  put_futex-get caller start s room tid =
      elim (Option-cases (futexes.insert caller start s.futex_start)) [
        | inl full ↦ absurd (room full)
        | inr (m, put) ↦
            rw (put, put_futex) (futexes.get-insert tid caller start s.futex_start m put)
      ]

  pub put_io-get :
      (issued : ℕ) (start : BlockIoStart) (s : Probes k)
      → ios.insert issued start s.blockio_start ≢ none
      → (key : ℕ)
      → ios.get key (put_io k issued start s).blockio_start
        ≡ (if key == issued then some start else ios.get key s.blockio_start)
  unfolding put_io
  put_io-get issued start s room key =
      elim (Option-cases (ios.insert issued start s.blockio_start)) [
        | inl full ↦ absurd (room full)
        | inr (m, put) ↦ rw (put, put_io) (ios.get-insert key issued start s.blockio_start m put)
      ]

  pub put_futex-events :
      (caller : ℕ) (start : FutexStart) (s : Probes k)
      → (put_futex k caller start s).events ≡ s.events
  unfolding put_futex
  put_futex-events caller start s =
      elim (Option-cases (futexes.insert caller start s.futex_start)) [
        | inl full ↦ rw (full, put_futex)
        | inr (m, put) ↦ rw (put, put_futex)
      ]

  pub put_io-events :
      (key : ℕ) (start : BlockIoStart) (s : Probes k) → (put_io k key start s).events ≡ s.events
  unfolding put_io
  put_io-events key start s = elim (Option-cases (ios.insert key start s.blockio_start)) [
    | inl full ↦ rw (full, put_io)
    | inr (m, put) ↦ rw (put, put_io)
  ]

  module _ (h : Helpers) (evt : TraceEventRawSchedSwitch) (s : Probes k) where
    pub switch_out-get :
        (target : ℕ)
        → ((tid : ℕ) (start : BlockStart) → blocks.insert tid start s.block_start ≢ none)
        → (tid : ℕ)
        → blocks.get tid (switch_out k h evt target s).block_start
          ≡ Option.or_else
              (block_begun target tid (sched_switch h (some evt)))
              (blocks.get tid s.block_start)
    unfolding switch_out Option.or_else
    switch_out-get target room tid = elim (Bool-cases (evt.prev_state == task_running)) [
      | inl running ↦ rw running
      | inr blocked ↦ elim (Bool-cases (current_tgid h == target)) [
        | inl ours ↦
            let begins : BlockStart = record {
              ts = h.ktime_ns;
              tgid = current_tgid h;
              comm = evt.prev_comm;
            } in
            let found =
              put_block-get (evt.prev_pid % 2 ^ 32) begins s (room (evt.prev_pid % 2 ^ 32) begins)
                tid in
            let same = ==→eq (current_tgid h) target ours in
            rw (blocked, ours) (ground (arith, found, same))
        | inr other ↦ rw (blocked, other)
      ]
    ]

    pub switch_in-get :
        (tid : ℕ)
        → blocks.get tid (switch_in k h evt s).block_start
          ≡ (if tid == evt.next_pid % 2 ^ 32 then none else blocks.get tid s.block_start)
    unfolding switch_in
    switch_in-get tid =
        let taken = blocks.get-remove tid (evt.next_pid % 2 ^ 32) s.block_start in
        elim (Option-cases (blocks.get (evt.next_pid % 2 ^ 32) s.block_start)) [
          | inl absent ↦ rw (absent, switch_in) (ground (arith, absent))
          | inr (start, present) ↦
              rw (present, switch_in) (ap (blocks.get tid) (emit-same k _ _).0.1 ∙ taken)
        ]

    pub switch_in-queued :
        ((ev : Event) → ring.submit ev s.events ≢ none)
        → ring.queued (switch_in k h evt s).events
          ≡ noted (ring.queued s.events) (
              Option.map
                (block_event h (evt.next_pid % 2 ^ 32))
                (blocks.get (evt.next_pid % 2 ^ 32) s.block_start))
    unfolding switch_in
    switch_in-queued room = elim (Option-cases (blocks.get (evt.next_pid % 2 ^ 32) s.block_start)) [
      | inl absent ↦ rw (absent, switch_in)
      | inr (start, present) ↦ rw (present, switch_in) (emit-queued _ _ (room _))
    ]
