-- ===== src/Ebpf/Refines/Switch.antt =====
-- whyslow-ebpf/src/main.rs: `try_sched_switch` against the reference.
use mathlib.Core.Option
use whyslow.Base.{ℕ, ◌%◌, ◌^◌, ◌≡◌, refl, sym, ap, ◌∙◌, false, Option, none, some, List, ◌∷◌, ◌==◌}
use whyslow.Ebpf.Raw.{TraceEventRawSchedSwitch}
use whyslow.Ebpf.Kernel.{Helpers}
use whyslow.Ebpf.Probes.{Maps, Probes, Hit, sched_switch, switch_out, switch_in, try_sched_switch}
use whyslow.Ebpf.Footprint.{switch_out-same, switch_in-same}
use whyslow.Ebpf.BlockEntry.{switch_out-events}
use whyslow.Ebpf.Reference.{
  block_begun, open_span, event_at, events_of, ended_block, noted, block_event,
}
use whyslow.Ebpf.Exact.{HasRoom, switch_out-get, switch_in-get, switch_in-queued}
use whyslow.Ebpf.Refines.State.{IsExact, target_tgid_exact, passed_over}

module _ (k : Maps) (target : ℕ) (hits : List Hit) (s : Probes k) (h : Helpers)
    (set : (target == 0) ≡ false) (v : IsExact k target hits s) (room : HasRoom k s) where
  open k use {blocks, futexes, ios, ring}

  module _ (evt : TraceEventRawSchedSwitch) where
    abbrev out : Probes k
    out = switch_out k h evt target s

    out-get :
        (tid : ℕ)
        → blocks.get tid out.block_start ≡ ended_block target tid (sched_switch h (some evt)) hits
    out-get tid =
        switch_out-get k h evt s target room.blocks_room tid
        ∙ ap (Option.or_else (block_begun target tid (sched_switch h (some evt))))
            (v.blocks_exact tid)

    switched : IsExact k target (sched_switch h (some evt) ∷ hits) (switch_in k h evt out)
    unfolding open_span events_of event_at Option.or_else
    switched =
        let (f, i) = switch_out-same k h evt target s in
        let (f', i') = switch_in-same k h evt out in
        record {
          target_is = f'.0 ∙ f.0 ∙ v.target_is;
          blocks_exact = λ tid. switch_in-get k h evt out tid ∙ rw (out-get tid);
          futexes_exact = λ tid. ap (futexes.get tid) (f'.1 ∙ f.1) ∙ v.futexes_exact tid;
          ios_exact = λ key. ap (ios.get key) (i'.1 ∙ i.1) ∙ v.ios_exact key;
          queue_exact =
              switch_in-queued k h evt out (λ ev full.
                room.ring_room ev
                  (ap (ring.submit ev) (sym (switch_out-events k 0 h evt target s)) ∙ full))
              ∙ ap
                  (λ evs. noted evs (
                    Option.map (block_event h (evt.next_pid % 2 ^ 32))
                      (blocks.get (evt.next_pid % 2 ^ 32) out.block_start)))
                  (ap ring.queued (switch_out-events k 0 h evt target s) ∙ v.queue_exact)
              ∙ ap
                  (λ o.
                    noted (events_of target hits)
                      (Option.map (block_event h (evt.next_pid % 2 ^ 32)) o))
                  (out-get (evt.next_pid % 2 ^ 32));
        }

  pub try_sched_switch-IsExact :
      (raw : Option TraceEventRawSchedSwitch)
      → IsExact k target (sched_switch h raw ∷ hits) (try_sched_switch k h raw s).0
  unfolding try_sched_switch open_span events_of event_at Option.or_else
  try_sched_switch-IsExact none =
      rw (target_tgid_exact k target hits s v, set)
        (passed_over k target hits s (sched_switch h none) v (λ tid. refl) (λ tid. refl)
          (λ key. refl) refl)
  try_sched_switch-IsExact (some evt) = rw (target_tgid_exact k target hits s v, set) (switched evt)
