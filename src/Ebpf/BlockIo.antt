-- ===== src/Ebpf/BlockIo.antt =====
-- whyslow-ebpf/src/main.rs: `try_block_rq_issue` and `try_block_rq_complete` keep the invariant.
use whyslow.Base.{
  ℕ, ◌-◌, ◌≡◌, refl, inl, inr, false, Option, none, some, List, ◌∷◌, arith, ◌==◌, ==→eq, Bool-cases,
  Option-cases, if◌then◌else◌,
}
use whyslow.Event.Schema.{new, event_block_io, pack_block_key}
use whyslow.Ebpf.Raw.{TraceEventRawBlockRq, TraceEventRawBlockRqCompletion}
use whyslow.Ebpf.Kernel.{Helpers}
use whyslow.Ebpf.Probes.{
  Maps, Probes, Hit, block_rq_issue, block_rq_complete, BlockIoStart, current_tgid, current_tid,
  current_comm, put_io, try_block_rq_issue, try_block_rq_complete,
}
use whyslow.Ebpf.History.{
  IssuesAt, CompletesAt, Pending, begun, held, Emitted, of_io, Pending-holds, IssuesAt-tgid,
}
use whyslow.Ebpf.Invariant.{
  Inv, Explained-held, emitted_earlier, emit-Inv, quiet-Inv, target_tgid-target,
}

module _ (k : Maps) (target : ℕ) (hits : List Hit) (s : Probes k) (h : Helpers) where
  open k use {ios, ring}

  abbrev issued : BlockIoStart
  issued = record {
    ts = h.ktime_ns;
    tgid = current_tgid h;
    tid = current_tid h;
    comm = current_comm h;
  }

  quiet_issue :
      (raw : Option TraceEventRawBlockRq)
      → Inv k target hits s
      → Inv k target (block_rq_issue h raw ∷ hits) s
  quiet_issue raw =
      quiet-Inv k target (block_rq_issue h raw) hits s (λ tid now r. r) (λ tid now r. r)
        (λ key now r. r)

  put_io-Inv :
      (evt : TraceEventRawBlockRq)
      → current_tgid h ≡ target
      → Inv k target hits s
      → Inv k target
          (block_rq_issue h (some evt) ∷ hits)
          (put_io k (pack_block_key evt.dev evt.sector) issued s)
  unfolding put_io
  put_io-Inv evt ours v = elim (Option-cases (ios.insert here issued s.blockio_start)) [
    | inl full ↦ rw (full, put_io) quiet
    | inr (m, put) ↦
        rw (put, put_io)
          (record {
            target_is = quiet.target_is;
            blocks_explained = quiet.blocks_explained;
            futexes_explained = quiet.futexes_explained;
            ios_explained = λ key start e. entry m put key start e;
            all_emitted = quiet.all_emitted;
          })
  ]
    where
      here : ℕ
      here = pack_block_key evt.dev evt.sector

      quiet : Inv k target (block_rq_issue h (some evt) ∷ hits) s
      quiet = quiet_issue (some evt) v

      entry :
          (m : ios.Map)
          → ios.insert here issued s.blockio_start ≡ some m
          → (key : ℕ) (start : BlockIoStart) → ios.get key m ≡ some start
          → Pending (IssuesAt target) CompletesAt key start (block_rq_issue h (some evt) ∷ hits)
      entry m put key start e =
          let found = ios.get-insert key here issued s.blockio_start m put in
          elim (Bool-cases (key == here)) [
            | inl same ↦
                let now : issued ≡ start = ground (arith, found) in
                begun (==→eq _ _ same, ours, ground (arith, now, ours))
            | inr other ↦ quiet.ios_explained key start (ground (arith, found))
          ]

  pub try_block_rq_issue-Inv :
      (raw : Option TraceEventRawBlockRq)
      → (target == 0) ≡ false
      → Inv k target hits s
      → Inv k target (block_rq_issue h raw ∷ hits) (try_block_rq_issue k h raw s).0
  unfolding try_block_rq_issue
  try_block_rq_issue-Inv none set v = elim (Bool-cases (current_tgid h == target)) [
    | inl ours ↦ rw (target_tgid-target k target hits s v, set, ours) (quiet_issue none v)
    | inr other ↦ rw (target_tgid-target k target hits s v, set, other) (quiet_issue none v)
  ]
  try_block_rq_issue-Inv (some evt) set v = elim (Bool-cases (current_tgid h == target)) [
    | inl ours ↦
        rw (target_tgid-target k target hits s v, set, ours) (put_io-Inv evt (==→eq _ _ ours) v)
    | inr other ↦ rw (target_tgid-target k target hits s v, set, other) (quiet_issue (some evt) v)
  ]

  module _ (evt : TraceEventRawBlockRqCompletion) where
    abbrev done : Hit
    done = block_rq_complete h (some evt)

    abbrev its_key : ℕ
    its_key = pack_block_key evt.dev evt.sector

    -- The invariant after the completion, with the request's entry taken out.
    settled :
        (m : ios.Map)
        → ((key : ℕ)
            → ios.get key m ≡ (if key == its_key then none else ios.get key s.blockio_start))
        → Inv k target hits s
        → Inv k target (done ∷ hits) (record s { blockio_start = m })
    settled m taken v = record {
      target_is = v.target_is;
      blocks_explained = Explained-held done (λ key now e. e) v.blocks_explained;
      futexes_explained = Explained-held done (λ key now e. e) v.futexes_explained;
      ios_explained = λ key start e. elim (Bool-cases (key == its_key)) [
        | inl same ↦ let gone = taken key in absurd (ground arith)
        | inr other ↦
            let found = taken key in
            held (λ now r. ground (arith, r.0)) (v.ios_explained key start (ground arith))
      ];
      all_emitted = emitted_earlier k target done hits (ring.queued s.events) v.all_emitted;
    }

    nothing_taken :
        ios.get its_key s.blockio_start ≡ none
        → (key : ℕ)
        → ios.get key s.blockio_start
          ≡ (if key == its_key then none else ios.get key s.blockio_start)
    nothing_taken absent key = elim (Bool-cases (key == its_key)) [
      | inl same ↦ rw (same, ==→eq _ _ same) absent
      | inr other ↦ rw other
    ]

    completed :
        (start : BlockIoStart)
        → Inv k target hits s
        → ios.get its_key s.blockio_start ≡ some start
        → Emitted target
            (new h.ktime_ns
              (h.ktime_ns - start.ts)
              its_key
              start.tgid
              start.tid
              event_block_io
              start.comm)
            (done ∷ hits)
    completed start v present =
        let origin = v.ios_explained its_key start present in
        of_io its_key h.ktime_ns start origin (refl, refl)
          (rw (Pending-holds (λ a. a.tgid ≡ target) (IssuesAt-tgid target its_key start) origin))

  pub try_block_rq_complete-Inv :
      (raw : Option TraceEventRawBlockRqCompletion)
      → Inv k target hits s
      → Inv k target (block_rq_complete h raw ∷ hits) (try_block_rq_complete k h raw s).0
  unfolding try_block_rq_complete
  try_block_rq_complete-Inv none v =
      quiet-Inv k target (block_rq_complete h none) hits s (λ tid now r. r) (λ tid now r. r)
        (λ key now r. r) v
  try_block_rq_complete-Inv (some evt) v =
      elim (Option-cases (ios.get (its_key evt) s.blockio_start)) [
        | inl absent ↦
            rw (absent, try_block_rq_complete)
              (settled evt s.blockio_start (nothing_taken evt absent) v)
        | inr (start, present) ↦
            rw (present, try_block_rq_complete)
              (emit-Inv k target (done evt ∷ hits) _ _
                (settled evt (ios.remove (its_key evt) s.blockio_start)
                  (λ key. ios.get-remove key (its_key evt) s.blockio_start) v)
                (completed evt start v present))
      ]
