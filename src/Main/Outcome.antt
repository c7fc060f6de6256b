-- ===== src/Main/Outcome.antt =====
-- whyslow-cli/src/main.rs: what `run` writes and prints when every call succeeds.
use whyslow.Base.{ℕ, ◌≡◌, ◌≢◌, ◌∙◌, ap, none, some, List, [], ◌∷◌, ◌++◌, map, All}
use whyslow.Base.Text.{Text}
use whyslow.Base.Result.{ok, found, Anyhow}
use whyslow.Ui.Paint.{banner}
use whyslow.Trace.Defs.{TraceEvent, TraceFile, from_event, capture_anchor}
use whyslow.Trace.Disk.{write_to}
use whyslow.Causal.Explain.{Chain, explain, print_chains}
use whyslow.Causal.Report.{explain-size}
use whyslow.Bpf.Load.{load_and_attach, load_and_attach-ok_iff, tracepoints}
use whyslow.Bpf.Target.{set_target_tgid}
use whyslow.Bpf.Drain.{Sent, bytes, IsWhole, drain_ring_buffer}
use whyslow.Ebpf.Probes.{Probes}
use whyslow.Child.{resume, wait_until_stopped, spawn_stopped}
use whyslow.Main.Effects.{
  printed, spawned, attached, target_set, clocks_read, Effect, resumed, wrote, Out, did, on_ok,
  TakesAll, banner_site, start_site, blank_site, chains_site, returned, World, Polled,
}
use whyslow.Main.Commands.{
  round_of, require_root, run, run_stopped, run_spawned, run_child, trace_target, tracing_line,
  save_and_print, print_explained,
}
use whyslow.Main.Polling.{found_items, drained}
use whyslow.Main.Printing.{prints-all}

module _ (w : World) (trace_out : Text) (slowest : ℕ) where
  -- The file that `run` and `attach` write.
  abbrev pub file_of : List Sent → TraceFile
  file_of sent = record {
    realtime_anchor_ns = (capture_anchor w.realtime w.monotonic).0;
    monotonic_anchor_ns = (capture_anchor w.realtime w.monotonic).1;
    events = map (λ x. from_event x.0) sent;
  }

  -- The anchors in the file.
  abbrev pub anchor_of : ℕ × ℕ
  anchor_of = capture_anchor w.realtime w.monotonic

  pub save_and_print_lem :
      (sent : List Sent) (chains : List Chain)
      → TakesAll w
      → (w.disk.create ≡ none) × (w.disk.writer ≡ none)
      → explain w.env (file_of sent) slowest ≡ some chains
      → save_and_print w anchor_of (map (λ x. from_event x.0) sent) trace_out slowest
        ≡ did
            (wrote trace_out (file_of sent))
            (did (printed ([] ∷ [])) (did (printed (print_chains w.env chains)) returned))
  unfolding save_and_print print_explained write_to
  save_and_print_lem sent chains takes writes explained =
      rw (writes.0, writes.1, explained, print_explained)
        (ap (did (wrote trace_out (file_of sent))) (
          prints-all (w.stdout blank_site) ([] ∷ []) _ (takes blank_site)
          ∙ ap (did (printed ([] ∷ []))) (
              prints-all (w.stdout chains_site) (print_chains w.env chains) returned
                (takes chains_site))))

  run_child_lem :
      (pid : ℕ) (events : List TraceEvent) (s : Probes w.maps)
      → resume pid w.detach ≡ ok tt
      → drain_ring_buffer w.events_map (map (round_of pid) (w.polls s)) (w.last s)
        ≡ some (ok events)
      → run_child w pid trace_out slowest s
        ≡ did
            (clocks_read anchor_of)
            (did (resumed pid) (save_and_print w anchor_of events trace_out slowest))
  unfolding run_child
  run_child_lem pid events s resumes drains = rw (resumes, drains, run_child)

  pub trace_target_lem :
      (pid : ℕ) (rest : Probes w.maps → Out) (s : Probes w.maps)
      → (load_and_attach w.bpf).1 ≡ ok tt
      → set_target_tgid w.maps w.target_map w.set_answer pid w.probes ≡ (s, ok tt)
      → trace_target w pid rest ≡ did (attached tracepoints) (did (target_set s.target) (rest s))
  unfolding trace_target
  trace_target_lem pid rest s loads sets = rw loads (
      ap
        (λ ts. did (attached ts) (
          let set = set_target_tgid w.maps w.target_map w.set_answer pid w.probes in
          on_ok set.1 (λ _. did (target_set set.0.target) (rest set.0))))
        ((load_and_attach-ok_iff w.bpf).1 loads)
      ∙ ap
          (λ (set : Probes w.maps × Anyhow Unit).
            did (attached tracepoints)
              (on_ok set.1 (λ _. did (target_set set.0.target) (rest set.0))))
          sets)

  run_prepared_lem :
      (command : List Text) (pid : ℕ)
      → TakesAll w
      → require_root w.euid ≡ ok tt
      → spawn_stopped command w.child ≡ ok pid
      → wait_until_stopped pid w.waits ≡ some (ok tt)
      → run w command trace_out slowest
        ≡ did (printed (banner w.env.terminal)) (
            did
              (printed (tracing_line w command))
              (did (spawned pid) (trace_target w pid (run_child w pid trace_out slowest))))
  unfolding run run_spawned run_stopped
  run_prepared_lem command pid takes root spawns waits =
      rw (root, spawns, waits, run_spawned, run_stopped)
        (prints-all (w.stdout banner_site) (banner w.env.terminal) _ (takes banner_site)
          ∙ ap (did (printed (banner w.env.terminal)))
              (prints-all (w.stdout start_site) (tracing_line w command) _ (takes start_site)))

  -- What `run` does up to resuming the child.
  abbrev pub run_first : List Text → ℕ → List Effect
  run_first command pid =
      printed (banner w.env.terminal)
      ∷ printed (tracing_line w command)
      ∷ spawned pid
      ∷ attached tracepoints
      ∷ target_set (some pid)
      ∷ clocks_read anchor_of
      ∷ resumed pid
      ∷ []

  -- What it does at last.
  abbrev pub ending_of : List Sent → List Chain → List Effect
  ending_of sent chains =
      wrote trace_out (file_of sent) ∷ printed ([] ∷ []) ∷ printed (print_chains w.env chains) ∷ []

  -- `run` in a world in which every call succeeds, and `s` is the state in which the target is set.
  pub run-wrote :
      (command : List Text) (pid : ℕ) (s : Probes w.maps) (polls later : List Polled) (p : Polled)
      (sent : List Sent)
      → TakesAll w
      → require_root w.euid ≡ ok tt
      → spawn_stopped command w.child ≡ ok pid
      → wait_until_stopped pid w.waits ≡ some (ok tt)
      → (load_and_attach w.bpf).1 ≡ ok tt
      → set_target_tgid w.maps w.target_map w.set_answer pid w.probes ≡ (s, ok tt)
      → s.target ≡ some pid
      → resume pid w.detach ≡ ok tt
      → w.events_map ≡ found
      → w.polls s ≡ polls ++ p ∷ later
      → All (λ q. q.ret ≢ pid) polls
      → p.ret ≡ pid
      → All IsWhole sent
      → found_items polls ++ (p.items ++ w.last s) ≡ map bytes sent
      → (w.disk.create ≡ none) × (w.disk.writer ≡ none)
      → (chains : List Chain) × (explain w.env (file_of sent) slowest ≡ some chains)
        × (run w command trace_out slowest ≡ record {
          effects = run_first command pid ++ ending_of sent chains;
          result = some (ok tt);
        })
  run-wrote command pid s polls later p sent takes root spawns waits loads sets slot resumes maps
        polled quiet exits whole same writes =
      let (chains, explained, _, _) = explain-size w.env (file_of sent) slowest in
      let drains : drain_ring_buffer w.events_map (map (round_of pid) (w.polls s)) (w.last s)
          ≡ some (ok (map (λ x. from_event x.0) sent)) =
        ap (λ m. drain_ring_buffer m (map (round_of pid) (w.polls s)) (w.last s)) maps
        ∙ ap (λ ps. drain_ring_buffer found (map (round_of pid) ps) (w.last s)) polled
        ∙ drained pid polls later p (w.last s) sent quiet exits whole same in
      let ends : run_child w pid trace_out slowest s
          ≡ did (clocks_read anchor_of) (
              did (resumed pid)
                (record { effects = ending_of sent chains; result = some (ok tt) })) =
        run_child_lem pid _ s resumes drains
        ∙ ap (λ out. did (clocks_read anchor_of) (did (resumed pid) out))
            (save_and_print_lem sent chains takes writes explained) in
      let traces : trace_target w pid (run_child w pid trace_out slowest)
          ≡ did (attached tracepoints)
              (did (target_set (some pid)) (run_child w pid trace_out slowest s)) =
        trace_target_lem pid (run_child w pid trace_out slowest) s loads sets
        ∙ ap
            (λ slot.
              did (attached tracepoints)
                (did (target_set slot) (run_child w pid trace_out slowest s)))
            slot in
      (
        chains,
        explained,
        run_prepared_lem command pid takes root spawns waits
            ∙ ap
                (λ out.
                  did (printed (banner w.env.terminal))
                    (did (printed (tracing_line w command)) (did (spawned pid) out)))
                (traces
                  ∙ ap (λ out. did (attached tracepoints) (did (target_set (some pid)) out)) ends),
      )
