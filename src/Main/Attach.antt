-- ===== src/Main/Attach.antt =====
-- whyslow-cli/src/main.rs: what `attach` writes and prints when every call succeeds.
use whyslow.Base.{
  if◌then◌else◌, ℕ, ◌≡◌, refl, ◌∙◌, ap, Bool, true, Option, none, some, List, [], ◌∷◌, ◌++◌, map,
  All,
}
use whyslow.Base.Text.{Text, codes, decimal}
use whyslow.Base.Result.{ok, found}
use whyslow.Ui.Paint.{banner}
use whyslow.Trace.Defs.{TraceEvent, from_event}
use whyslow.Causal.Explain.{Chain, explain}
use whyslow.Causal.Report.{explain-size}
use whyslow.Bpf.Load.{load_and_attach, tracepoints}
use whyslow.Bpf.Target.{set_target_tgid}
use whyslow.Bpf.Drain.{Sent, bytes, IsWhole, drain_ring_buffer}
use whyslow.Ebpf.Probes.{Probes}
use whyslow.Main.Effects.{
  printed, attached, target_set, clocks_read, Effect, TakesAll, banner_site, start_site,
  handler_set, did, failed_with, World, Watched,
}
use whyslow.Main.Commands.{
  require_root, watch_of, deadline_of, watching_line, attach, attach_watch, attach_drain,
  on_deadline, trace_target, save_and_print,
}
use whyslow.Main.Outcome.{anchor_of, ending_of, file_of, save_and_print_lem, trace_target_lem}
use whyslow.Main.Stopping.{IsOver, watched_items, drained_watch}
use whyslow.Main.Printing.{prints-all}

module _ (w : World) (trace_out : Text) (slowest : ℕ) where
  attach_watch_lem :
      (pid : ℕ) (duration_secs deadline : Option ℕ) (events : List TraceEvent) (s : Probes w.maps)
      → TakesAll w
      → deadline_of w.started duration_secs ≡ some deadline
      → drain_ring_buffer w.events_map (map (watch_of deadline) (w.watches s)) (w.last s)
        ≡ some (ok events)
      → attach_watch w pid trace_out slowest duration_secs s
        ≡ did (clocks_read (anchor_of w trace_out slowest)) (
            did handler_set (
              did
                (printed (watching_line w pid))
                (save_and_print w (anchor_of w trace_out slowest) events trace_out slowest)))
  unfolding attach_watch attach_drain
  attach_watch_lem pid duration_secs deadline events s takes ends drains =
      let anchor = anchor_of w trace_out slowest in
      let go = attach_drain w anchor trace_out slowest s in
      let drain : go deadline ≡ save_and_print w anchor events trace_out slowest =
        rw (drains, attach_drain) refl in
      ap (λ out. did (clocks_read anchor) (did handler_set out))
        (prints-all (w.stdout start_site) (watching_line w pid) _ (takes start_site)
          ∙ ap (did (printed (watching_line w pid))) (ap (λ d. on_deadline d go) ends ∙ drain))

  attach_started_lem :
      (pid : ℕ) (duration_secs : Option ℕ)
      → TakesAll w
      → require_root w.euid ≡ ok tt
      → w.is_running ≡ true
      → attach w pid trace_out slowest duration_secs
        ≡ did
            (printed (banner w.env.terminal))
            (trace_target w pid (attach_watch w pid trace_out slowest duration_secs))
  unfolding attach
  attach_started_lem pid duration_secs takes root runs = rw root (
      prints-all (w.stdout banner_site) (banner w.env.terminal) _ (takes banner_site)
      ∙ ap
          (λ (b : Bool). did (printed (banner w.env.terminal)) (
            if b
            then trace_target w pid (attach_watch w pid trace_out slowest duration_secs)
            else failed_with ((codes "no such process: " ++ decimal pid) ∷ [])))
          runs)

  -- What `attach` does up to the drain.
  abbrev pub attach_first : ℕ → List Effect
  attach_first pid =
      printed (banner w.env.terminal)
      ∷ attached tracepoints
      ∷ target_set (some pid)
      ∷ clocks_read (anchor_of w trace_out slowest)
      ∷ handler_set
      ∷ printed (watching_line w pid)
      ∷ []

  -- `attach` in a world in which every call succeeds, and `s` is the state in which the target is set.
  pub attach-wrote :
      (pid : ℕ) (duration_secs deadline : Option ℕ) (s : Probes w.maps)
      (watches later : List Watched) (q : Watched) (sent : List Sent)
      → TakesAll w
      → require_root w.euid ≡ ok tt
      → w.is_running ≡ true
      → (load_and_attach w.bpf).1 ≡ ok tt
      → set_target_tgid w.maps w.target_map w.set_answer pid w.probes ≡ (s, ok tt)
      → s.target ≡ some pid
      → deadline_of w.started duration_secs ≡ some deadline
      → w.events_map ≡ found
      → w.watches s ≡ watches ++ q ∷ later
      → All (λ r. ¬ IsOver deadline r) watches
      → IsOver deadline q
      → All IsWhole sent
      → watched_items watches ++ (q.items ++ w.last s) ≡ map bytes sent
      → (w.disk.create ≡ none) × (w.disk.writer ≡ none)
      → (chains : List Chain) × (explain w.env (file_of w trace_out slowest sent) slowest
          ≡ some chains)
        × (attach w pid trace_out slowest duration_secs ≡ record {
          effects = attach_first pid ++ ending_of w trace_out slowest sent chains;
          result = some (ok tt);
        })
  attach-wrote pid duration_secs deadline s watches later q sent takes root runs loads sets slot
        ends maps watched on over whole same writes =
      let (chains, explained, _, _) =
        explain-size w.env (file_of w trace_out slowest sent) slowest in
      let drains : drain_ring_buffer w.events_map (map (watch_of deadline) (w.watches s)) (w.last s)
          ≡ some (ok (map (λ x. from_event x.0) sent)) =
        ap (λ m. drain_ring_buffer m (map (watch_of deadline) (w.watches s)) (w.last s)) maps
        ∙ ap (λ qs. drain_ring_buffer found (map (watch_of deadline) qs) (w.last s)) watched
        ∙ drained_watch deadline watches later q (w.last s) sent on over whole same in
      let watch = attach_watch w pid trace_out slowest duration_secs in
      let anchor = anchor_of w trace_out slowest in
      (
        chains,
        explained,
        attach_started_lem pid duration_secs takes root runs
            ∙ ap (did (printed (banner w.env.terminal))) (
                trace_target_lem w trace_out slowest pid watch s loads sets
                ∙ ap (λ slot. did (attached tracepoints) (did (target_set slot) (watch s))) slot
                ∙ ap (λ out. did (attached tracepoints) (did (target_set (some pid)) out))
                    (attach_watch_lem pid duration_secs deadline _ s takes ends drains
                      ∙ ap
                          (λ out.
                            did (clocks_read anchor)
                              (did handler_set (did (printed (watching_line w pid)) out)))
                          (save_and_print_lem w trace_out slowest sent chains takes writes
                            explained))),
      )
