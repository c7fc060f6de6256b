-- ===== src/Ebpf/Refines/Futex.antt =====
-- whyslow-ebpf/src/main.rs: `try_futex_enter` and `try_futex_exit` against the reference.
use mathlib.Core.Option
use whyslow.Base.{
  ℕ, ◌%◌, ◌^◌, ◌≡◌, refl, ap, ◌∙◌, inl, inr, true, false, Option, none, some, List, ◌∷◌, arith,
  ◌==◌, ==→eq, Bool-cases,
}
use whyslow.Ebpf.Raw.{TraceEventRawSysEnter}
use whyslow.Ebpf.Kernel.{Helpers}
use whyslow.Ebpf.Probes.{
  Maps, Probes, Hit, futex_enter, futex_exit, FutexStart, try_futex_enter, try_futex_exit,
  current_tgid, current_tid, current_comm, not_traced, put_futex,
}
use whyslow.Ebpf.Footprint.{put_futex-same, try_futex_exit-same}
use whyslow.Ebpf.Reference.{open_span, event_at, events_of}
use whyslow.Ebpf.Ends.{try_futex_exit-get, try_futex_exit-queued}
use whyslow.Ebpf.Exact.{HasRoom, put_futex-get, put_futex-events}
use whyslow.Ebpf.Refines.State.{IsExact, target_tgid_exact, passed_over}

module _ (k : Maps) (target : ℕ) (hits : List Hit) (s : Probes k) (h : Helpers)
    (set : (target == 0) ≡ false) (v : IsExact k target hits s) (room : HasRoom k s) where
  open k use {blocks, futexes, ios, ring}

  entered :
      (evt : TraceEventRawSysEnter)
      → (current_tgid h == target) ≡ true
      → IsExact k target (futex_enter h (some evt) ∷ hits) (
          put_futex k
            (current_tid h)
            (record {
              ts = h.ktime_ns;
              uaddr = evt.arg0;
              op = evt.arg1 % 2 ^ 32;
              tgid = current_tgid h;
              comm = current_comm h;
            })
            s)
  unfolding open_span events_of event_at Option.or_else
  entered evt ours =
      let begins : FutexStart = record {
        ts = h.ktime_ns;
        uaddr = evt.arg0;
        op = evt.arg1 % 2 ^ 32;
        tgid = current_tgid h;
        comm = current_comm h;
      } in
      let same = ==→eq (current_tgid h) target ours in
      let (b, i) = put_futex-same k (current_tid h) begins s in
      record {
        target_is = b.0 ∙ v.target_is;
        blocks_exact = λ tid. ap (blocks.get tid) b.1 ∙ v.blocks_exact tid;
        futexes_exact = λ tid.
            let found =
              put_futex-get k (current_tid h) begins s (room.futexes_room (current_tid h) begins)
                tid in
            ground (arith, found, v.futexes_exact tid, same);
        ios_exact = λ key. ap (ios.get key) i.1 ∙ v.ios_exact key;
        queue_exact = ap ring.queued (put_futex-events k (current_tid h) begins s) ∙ v.queue_exact;
      }

  pub try_futex_enter-IsExact :
      (raw : Option TraceEventRawSysEnter)
      → IsExact k target (futex_enter h raw ∷ hits) (try_futex_enter k h raw s).0
  unfolding try_futex_enter open_span events_of event_at Option.or_else
  try_futex_enter-IsExact none = elim (Bool-cases (not_traced k h s)) [
    | inl untraced ↦
        rw (untraced, try_futex_enter)
          (passed_over k target hits s (futex_enter h none) v (λ tid. refl) (λ tid. refl)
            (λ key. refl) refl)
    | inr traced ↦
        rw (traced, try_futex_enter)
          (passed_over k target hits s (futex_enter h none) v (λ tid. refl) (λ tid. refl)
            (λ key. refl) refl)
  ]
  try_futex_enter-IsExact (some evt) = elim (Bool-cases (current_tgid h == target)) [
    | inl ours ↦ rw (target_tgid_exact k target hits s v, set, ours) (entered evt ours)
    | inr other ↦
        rw (target_tgid_exact k target hits s v, set, other)
          (passed_over k target hits s (futex_enter h (some evt)) v (λ tid. refl) (λ tid. rw other)
            (λ key. refl) refl)
  ]

  pub try_futex_exit-IsExact : IsExact k target (futex_exit h ∷ hits) (try_futex_exit k h s).0
  unfolding open_span events_of event_at Option.or_else
  try_futex_exit-IsExact =
      let (b, i) = try_futex_exit-same k h s in
      record {
        target_is = b.0 ∙ v.target_is;
        blocks_exact = λ tid. ap (blocks.get tid) b.1 ∙ v.blocks_exact tid;
        futexes_exact = λ tid. try_futex_exit-get k h s tid ∙ rw (v.futexes_exact tid);
        ios_exact = λ key. ap (ios.get key) i.1 ∙ v.ios_exact key;
        queue_exact =
            try_futex_exit-queued k h s room.ring_room
            ∙ rw (v.queue_exact, v.futexes_exact (current_tid h));
      }
