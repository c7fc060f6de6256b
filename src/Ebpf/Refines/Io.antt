-- ===== src/Ebpf/Refines/Io.antt =====
-- whyslow-ebpf/src/main.rs: `try_block_rq_issue` and `try_block_rq_complete` against the reference.
use mathlib.Core.Option
use whyslow.Base.{
  ℕ, ◌≡◌, refl, ap, ◌∙◌, inl, inr, true, false, Option, none, some, List, ◌∷◌, arith, ◌==◌, ==→eq,
  Bool-cases,
}
use whyslow.Event.Schema.{pack_block_key}
use whyslow.Ebpf.Raw.{TraceEventRawBlockRq, TraceEventRawBlockRqCompletion}
use whyslow.Ebpf.Kernel.{Helpers}
use whyslow.Ebpf.Probes.{
  Maps, Probes, Hit, block_rq_issue, block_rq_complete, BlockIoStart, try_block_rq_issue,
  try_block_rq_complete, current_tgid, current_tid, current_comm, not_traced, put_io,
}
use whyslow.Ebpf.Footprint.{put_io-same, try_block_rq_complete-same}
use whyslow.Ebpf.Reference.{open_span, event_at, events_of}
use whyslow.Ebpf.Ends.{try_block_rq_complete-get, try_block_rq_complete-queued}
use whyslow.Ebpf.Exact.{HasRoom, put_io-get, put_io-events}
use whyslow.Ebpf.Refines.State.{IsExact, target_tgid_exact, passed_over}

module _ (k : Maps) (target : ℕ) (hits : List Hit) (s : Probes k) (h : Helpers)
    (set : (target == 0) ≡ false) (v : IsExact k target hits s) (room : HasRoom k s) where
  open k use {blocks, futexes, ios, ring}

  issued :
      (evt : TraceEventRawBlockRq)
      → (current_tgid h == target) ≡ true
      → IsExact k target (block_rq_issue h (some evt) ∷ hits) (
          put_io k
            (pack_block_key evt.dev evt.sector)
            (record {
              ts = h.ktime_ns;
              tgid = current_tgid h;
              tid = current_tid h;
              comm = current_comm h;
            })
            s)
  unfolding open_span events_of event_at Option.or_else
  issued evt ours =
      let begins : BlockIoStart = record {
        ts = h.ktime_ns;
        tgid = current_tgid h;
        tid = current_tid h;
        comm = current_comm h;
      } in
      let here : ℕ = pack_block_key evt.dev evt.sector in
      let same = ==→eq (current_tgid h) target ours in
      let (b, f) = put_io-same k here begins s in
      record {
        target_is = b.0 ∙ v.target_is;
        blocks_exact = λ tid. ap (blocks.get tid) b.1 ∙ v.blocks_exact tid;
        futexes_exact = λ tid. ap (futexes.get tid) f.1 ∙ v.futexes_exact tid;
        ios_exact = λ key.
            let found = put_io-get k here begins s (room.ios_room here begins) key in
            ground (arith, found, v.ios_exact key, same);
        queue_exact = ap ring.queued (put_io-events k here begins s) ∙ v.queue_exact;
      }

  pub try_block_rq_issue-IsExact :
      (raw : Option TraceEventRawBlockRq)
      → IsExact k target (block_rq_issue h raw ∷ hits) (try_block_rq_issue k h raw s).0
  unfolding try_block_rq_issue open_span events_of event_at Option.or_else
  try_block_rq_issue-IsExact none = elim (Bool-cases (not_traced k h s)) [
    | inl untraced ↦
        rw (untraced, try_block_rq_issue)
          (passed_over k target hits s (block_rq_issue h none) v (λ tid. refl) (λ tid. refl)
            (λ key. refl) refl)
    | inr traced ↦
        rw (traced, try_block_rq_issue)
          (passed_over k target hits s (block_rq_issue h none) v (λ tid. refl) (λ tid. refl)
            (λ key. refl) refl)
  ]
  try_block_rq_issue-IsExact (some evt) = elim (Bool-cases (current_tgid h == target)) [
    | inl ours ↦ rw (target_tgid_exact k target hits s v, set, ours) (issued evt ours)
    | inr other ↦
        rw (target_tgid_exact k target hits s v, set, other)
          (passed_over k target hits s (block_rq_issue h (some evt)) v (λ tid. refl) (λ tid. refl)
            (λ key. rw other) refl)
  ]

  pub try_block_rq_complete-IsExact :
      (raw : Option TraceEventRawBlockRqCompletion)
      → IsExact k target (block_rq_complete h raw ∷ hits) (try_block_rq_complete k h raw s).0
  unfolding try_block_rq_complete open_span events_of event_at Option.or_else
  try_block_rq_complete-IsExact none =
      passed_over k target hits s (block_rq_complete h none) v (λ tid. refl) (λ tid. refl)
        (λ key. refl) refl
  try_block_rq_complete-IsExact (some evt) =
      let (b, f) = try_block_rq_complete-same k h (some evt) s in
      record {
        target_is = b.0 ∙ v.target_is;
        blocks_exact = λ tid. ap (blocks.get tid) b.1 ∙ v.blocks_exact tid;
        futexes_exact = λ tid. ap (futexes.get tid) f.1 ∙ v.futexes_exact tid;
        ios_exact = λ key. try_block_rq_complete-get k h s evt key ∙ rw (v.ios_exact key);
        queue_exact =
            try_block_rq_complete-queued k h s evt room.ring_room
            ∙ rw (v.queue_exact, v.ios_exact (pack_block_key evt.dev evt.sector));
      }
