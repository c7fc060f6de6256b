-- ===== src/Ebpf/Switch.antt =====
-- whyslow-ebpf/src/main.rs: `try_sched_switch` keeps the invariant.
use whyslow.Base.{
  ℕ, ◌-◌, ◌%◌, ◌^◌, ◌≡◌, ◌≢◌, refl, ◌⊎◌, inl, inr, false, Option, none, some, List, ◌∷◌, arith,
  ◌==◌, ==→eq, Bool-cases, Option-cases, All, if◌then◌else◌,
}
use whyslow.Event.Schema.{new, event_sched_block}
use whyslow.Ebpf.Raw.{TraceEventRawSchedSwitch, task_running}
use whyslow.Ebpf.Kernel.{Helpers}
use whyslow.Ebpf.Probes.{
  Maps, Probes, Hit, sched_switch, BlockStart, current_tgid, put_block, switch_out, switch_in,
  try_sched_switch,
}
use whyslow.Ebpf.History.{
  BlocksAt, ResumesAt, EntersAt, LeavesAt, IssuesAt, CompletesAt, Pending, begun, held, Emitted,
  of_switch, Pending-holds, BlocksAt-tgid,
}
use whyslow.Ebpf.Invariant.{
  Inv, Explained, Explained-held, emitted_earlier, emit-Inv, quiet-Inv, target_tgid-target,
}

module _ (k : Maps) (target : ℕ) (h : Helpers) (evt : TraceEventRawSchedSwitch)
    (hits : List Hit) where
  open k use {blocks, futexes, ios, ring}

  abbrev hit : Hit
  hit = sched_switch h (some evt)

  -- Between the two halves an entry is pending from before, or was set down just now.
  record Mid (s : Probes k) : Type 0 where
    target_is : s.target ≡ some target
    blocks_mid :
        (tid : ℕ) (start : BlockStart)
        → blocks.get tid s.block_start ≡ some start
        → Pending (BlocksAt target) ResumesAt tid start hits ⊎ BlocksAt target tid start hit
    futexes_explained :
        Explained (EntersAt target) LeavesAt (λ tid. futexes.get tid s.futex_start) hits
    ios_explained :
        Explained (IssuesAt target) CompletesAt (λ key. ios.get key s.blockio_start) hits
    all_emitted : All (λ ev. Emitted target ev hits) (ring.queued s.events)

  unchanged : (s : Probes k) → Inv k target hits s → Mid s
  unchanged s v = record {
    target_is = v.target_is;
    blocks_mid = λ tid start e. inl (v.blocks_explained tid start e);
    futexes_explained = v.futexes_explained;
    ios_explained = v.ios_explained;
    all_emitted = v.all_emitted;
  }

  abbrev begins : BlockStart
  begins = record { ts = h.ktime_ns; tgid = current_tgid h; comm = evt.prev_comm }

  put_block-Mid :
      (s : Probes k)
      → Inv k target hits s
      → evt.prev_state ≢ task_running
      → current_tgid h ≡ target
      → Mid (put_block k (evt.prev_pid % 2 ^ 32) begins s)
  unfolding put_block
  put_block-Mid s v blocked ours = elim (Option-cases (blocks.insert prev begins s.block_start)) [
    | inl full ↦ rw (full, put_block) (unchanged s v)
    | inr (m, put) ↦
        rw (put, put_block)
          (record {
            target_is = v.target_is;
            blocks_mid = λ tid start e. entry m put tid start e;
            futexes_explained = v.futexes_explained;
            ios_explained = v.ios_explained;
            all_emitted = v.all_emitted;
          })
  ]
    where
      prev : ℕ
      prev = evt.prev_pid % 2 ^ 32

      entry :
          (m : blocks.Map)
          → blocks.insert prev begins s.block_start ≡ some m
          → (tid : ℕ) (start : BlockStart) → blocks.get tid m ≡ some start
          → Pending (BlocksAt target) ResumesAt tid start hits ⊎ BlocksAt target tid start hit
      entry m put tid start e =
          let found = blocks.get-insert tid prev begins s.block_start m put in
          elim (Bool-cases (tid == prev)) [
            | inl same ↦
                let now : begins ≡ start = ground (arith, found) in
                inr (==→eq _ _ same, blocked, ours, ground (arith, now, ours))
            | inr other ↦ inl (v.blocks_explained tid start (ground (arith, found)))
          ]

  switch_out-Mid : (s : Probes k) → Inv k target hits s → Mid (switch_out k h evt target s)
  unfolding switch_out
  switch_out-Mid s v = elim (Bool-cases (evt.prev_state == task_running)) [
    | inl running ↦ rw running (unchanged s v)
    | inr blocked ↦ elim (Bool-cases (current_tgid h == target)) [
      | inl ours ↦ rw (blocked, ours) (put_block-Mid s v (ground arith) (==→eq _ _ ours))
      | inr other ↦ rw (blocked, other) (unchanged s v)
    ]
  ]

  abbrev next : ℕ
  next = evt.next_pid % 2 ^ 32

  -- An entry of another thread than the one that resumes.
  held_or_begun :
      (tid : ℕ) (start : BlockStart)
      → tid ≢ next
      → Pending (BlocksAt target) ResumesAt tid start hits ⊎ BlocksAt target tid start hit
      → Pending (BlocksAt target) ResumesAt tid start (hit ∷ hits)
  held_or_begun tid start ne (inl old) = held (λ now r. ne r.0) old
  held_or_begun tid start ne (inr now) = begun now

  module _ (s : Probes k) (v : Mid s) where
    -- The invariant with the entry of the thread that resumes taken out, before anything is sent.
    settled :
        (m : blocks.Map)
        → ((tid : ℕ)
            → blocks.get tid m ≡ (if tid == next then none else blocks.get tid s.block_start))
        → Inv k target (hit ∷ hits) (record s { block_start = m })
    settled m taken = record {
      target_is = v.target_is;
      blocks_explained = λ tid start e. elim (Bool-cases (tid == next)) [
        | inl same ↦ let gone = taken tid in absurd (ground arith)
        | inr other ↦
            let found = taken tid in
            held_or_begun tid start (λ p. ground (arith, p)) (v.blocks_mid tid start (ground arith))
      ];
      futexes_explained = Explained-held hit (λ key now e. e) v.futexes_explained;
      ios_explained = Explained-held hit (λ key now e. e) v.ios_explained;
      all_emitted = emitted_earlier k target hit hits (ring.queued s.events) v.all_emitted;
    }

    nothing_taken :
        blocks.get next s.block_start ≡ none
        → (tid : ℕ)
        → blocks.get tid s.block_start
          ≡ (if tid == next then none else blocks.get tid s.block_start)
    nothing_taken absent tid = elim (Bool-cases (tid == next)) [
      | inl same ↦ rw (same, ==→eq _ _ same) absent
      | inr other ↦ rw other
    ]

    resumed :
        (start : BlockStart)
        → blocks.get next s.block_start ≡ some start
        → Emitted target
            (new h.ktime_ns (h.ktime_ns - start.ts) 0 start.tgid next event_sched_block start.comm)
            (hit ∷ hits)
    resumed start present =
        let origin = v.blocks_mid next start present in
        of_switch next h.ktime_ns start origin (refl, refl) (rw (ours origin))
      where
        ours :
            Pending (BlocksAt target) ResumesAt next start hits ⊎ BlocksAt target next start hit
            → start.tgid ≡ target
        ours (inl old) = Pending-holds (λ a. a.tgid ≡ target) (BlocksAt-tgid target next start) old
        ours (inr now) = BlocksAt-tgid target next start hit now

    switch_in-Inv : Inv k target (hit ∷ hits) (switch_in k h evt s)
    unfolding switch_in
    switch_in-Inv = elim (Option-cases (blocks.get next s.block_start)) [
      | inl absent ↦
          rw (absent, switch_in) (settled s.block_start (λ tid. nothing_taken absent tid))
      | inr (start, present) ↦
          rw (present, switch_in)
            (emit-Inv k target (hit ∷ hits) _ _
              (settled (blocks.remove next s.block_start)
                (λ tid. blocks.get-remove tid next s.block_start))
              (resumed start present))
    ]

pub try_sched_switch-Inv :
    (k : Maps) (target : ℕ) (hits : List Hit) (s : Probes k) (h : Helpers)
    (raw : Option TraceEventRawSchedSwitch)
    → (target == 0) ≡ false
    → Inv k target hits s
    → Inv k target (sched_switch h raw ∷ hits) (try_sched_switch k h raw s).0
unfolding try_sched_switch
try_sched_switch-Inv k target hits s h none set v =
    rw (target_tgid-target k target hits s v, set)
      (quiet-Inv k target (sched_switch h none) hits s (λ tid now r. r) (λ tid now r. r)
        (λ key now r. r) v)
try_sched_switch-Inv k target hits s h (some evt) set v =
    rw (target_tgid-target k target hits s v, set)
      (switch_in-Inv k target h evt hits (switch_out k h evt target s)
        (switch_out-Mid k target h evt hits s v))
