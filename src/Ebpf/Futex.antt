-- ===== src/Ebpf/Futex.antt =====
-- whyslow-ebpf/src/main.rs: `try_futex_enter` and `try_futex_exit` keep the invariant.
use whyslow.Base.{
  ℕ, ◌-◌, ◌%◌, ◌^◌, ◌≡◌, refl, inl, inr, false, Option, none, some, List, ◌∷◌, arith, ◌==◌, ==→eq,
  Bool-cases, Option-cases, if◌then◌else◌,
}
use whyslow.Event.Schema.{new}
use whyslow.Ebpf.Raw.{TraceEventRawSysEnter}
use whyslow.Ebpf.Kernel.{Helpers}
use whyslow.Ebpf.Probes.{
  Maps, Probes, Hit, futex_enter, futex_exit, FutexStart, current_tgid, current_tid, current_comm,
  event_type_of, put_futex, try_futex_enter, try_futex_exit,
}
use whyslow.Ebpf.History.{
  EntersAt, LeavesAt, Pending, begun, held, Emitted, of_futex, Pending-holds, EntersAt-tgid,
}
use whyslow.Ebpf.Invariant.{
  Inv, Explained-held, emitted_earlier, emit-Inv, quiet-Inv, target_tgid-target,
}

module _ (k : Maps) (target : ℕ) (hits : List Hit) (s : Probes k) (h : Helpers) where
  open k use {futexes, ring}

  abbrev begins : TraceEventRawSysEnter → FutexStart
  begins evt = record {
    ts = h.ktime_ns;
    uaddr = evt.arg0;
    op = evt.arg1 % 2 ^ 32;
    tgid = current_tgid h;
    comm = current_comm h;
  }

  module _ (raw : Option TraceEventRawSysEnter) where
    quiet_enter : Inv k target hits s → Inv k target (futex_enter h raw ∷ hits) s
    quiet_enter =
        quiet-Inv k target (futex_enter h raw) hits s (λ tid now r. r) (λ tid now r. r)
          (λ key now r. r)

  put_futex-Inv :
      (evt : TraceEventRawSysEnter)
      → current_tgid h ≡ target
      → Inv k target hits s
      → Inv k target (futex_enter h (some evt) ∷ hits) (put_futex k (current_tid h) (begins evt) s)
  unfolding put_futex
  put_futex-Inv evt ours v =
      elim (Option-cases (futexes.insert (current_tid h) (begins evt) s.futex_start)) [
        | inl full ↦ rw (full, put_futex) quiet
        | inr (m, put) ↦
            rw (put, put_futex)
              (record {
                target_is = quiet.target_is;
                blocks_explained = quiet.blocks_explained;
                futexes_explained = λ tid start e. entry m put tid start e;
                ios_explained = quiet.ios_explained;
                all_emitted = quiet.all_emitted;
              })
      ]
    where
      quiet : Inv k target (futex_enter h (some evt) ∷ hits) s
      quiet = quiet_enter (some evt) v

      entry :
          (m : futexes.Map)
          → futexes.insert (current_tid h) (begins evt) s.futex_start ≡ some m
          → (tid : ℕ) (start : FutexStart) → futexes.get tid m ≡ some start
          → Pending (EntersAt target) LeavesAt tid start (futex_enter h (some evt) ∷ hits)
      entry m put tid start e =
          let found = futexes.get-insert tid (current_tid h) (begins evt) s.futex_start m put in
          elim (Bool-cases (tid == current_tid h)) [
            | inl same ↦
                let now : begins evt ≡ start = ground (arith, found) in
                begun (==→eq _ _ same, ours, ground (arith, now, ours))
            | inr other ↦ quiet.futexes_explained tid start (ground (arith, found))
          ]

  pub try_futex_enter-Inv :
      (raw : Option TraceEventRawSysEnter)
      → (target == 0) ≡ false
      → Inv k target hits s
      → Inv k target (futex_enter h raw ∷ hits) (try_futex_enter k h raw s).0
  unfolding try_futex_enter
  try_futex_enter-Inv none set v = elim (Bool-cases (current_tgid h == target)) [
    | inl ours ↦ rw (target_tgid-target k target hits s v, set, ours) (quiet_enter none v)
    | inr other ↦ rw (target_tgid-target k target hits s v, set, other) (quiet_enter none v)
  ]
  try_futex_enter-Inv (some evt) set v = elim (Bool-cases (current_tgid h == target)) [
    | inl ours ↦
        rw (target_tgid-target k target hits s v, set, ours) (put_futex-Inv evt (==→eq _ _ ours) v)
    | inr other ↦ rw (target_tgid-target k target hits s v, set, other) (quiet_enter (some evt) v)
  ]

  abbrev tid_here : ℕ
  tid_here = current_tid h

  -- The invariant after the exit, with the entry of the thread taken out, before anything is sent.
  settled :
      (m : futexes.Map)
      → ((tid : ℕ)
          → futexes.get tid m ≡ (if tid == tid_here then none else futexes.get tid s.futex_start))
      → Inv k target hits s
      → Inv k target (futex_exit h ∷ hits) (record s { futex_start = m })
  settled m taken v = record {
    target_is = v.target_is;
    blocks_explained = Explained-held (futex_exit h) (λ key now e. e) v.blocks_explained;
    futexes_explained = λ tid start e. elim (Bool-cases (tid == tid_here)) [
      | inl same ↦ let gone = taken tid in absurd (ground arith)
      | inr other ↦
          let found = taken tid in
          held (λ now r. ground (arith, r.0)) (v.futexes_explained tid start (ground arith))
    ];
    ios_explained = Explained-held (futex_exit h) (λ key now e. e) v.ios_explained;
    all_emitted = emitted_earlier k target (futex_exit h) hits (ring.queued s.events) v.all_emitted;
  }

  nothing_taken :
      futexes.get tid_here s.futex_start ≡ none
      → (tid : ℕ)
      → futexes.get tid s.futex_start
        ≡ (if tid == tid_here then none else futexes.get tid s.futex_start)
  nothing_taken absent tid = elim (Bool-cases (tid == tid_here)) [
    | inl same ↦ rw (same, ==→eq _ _ same) absent
    | inr other ↦ rw other
  ]

  returned :
      (start : FutexStart) (event_type : ℕ)
      → Inv k target hits s
      → futexes.get tid_here s.futex_start ≡ some start
      → event_type_of start.op ≡ some event_type
      → Emitted target
          (new h.ktime_ns
            (h.ktime_ns - start.ts)
            start.uaddr
            start.tgid
            tid_here
            event_type
            start.comm)
          (futex_exit h ∷ hits)
  returned start event_type v present typed =
      let origin = v.futexes_explained tid_here start present in
      of_futex tid_here h.ktime_ns start event_type origin (refl, refl) typed
        (rw (Pending-holds (λ a. a.tgid ≡ target) (EntersAt-tgid target tid_here start) origin))

  pub try_futex_exit-Inv :
      Inv k target hits s → Inv k target (futex_exit h ∷ hits) (try_futex_exit k h s).0
  unfolding try_futex_exit
  try_futex_exit-Inv v = elim (Option-cases (futexes.get tid_here s.futex_start)) [
    | inl absent ↦ rw (absent, try_futex_exit) (settled s.futex_start (nothing_taken absent) v)
    | inr (start, present) ↦
        let taken =
          settled (futexes.remove tid_here s.futex_start)
            (λ tid. futexes.get-remove tid tid_here s.futex_start) v in
        elim (Option-cases (event_type_of start.op)) [
          | inl untyped ↦ rw (present, try_futex_exit, untyped) taken
          | inr (event_type, typed) ↦
              rw (present, try_futex_exit, typed)
                (emit-Inv k target (futex_exit h ∷ hits) _ _ taken
                  (returned start event_type v present typed))
        ]
  ]
