-- ===== src/Main/Commands.antt =====
-- whyslow-cli/src/main.rs: `require_root`, `run`, `attach` and `explain_cmd`.
use whyslow.Base.{
  ℕ, zero, suc, false, ◌+◌, ◌*◌, Bool, true, leb, if◌then◌else◌, Option, none, some, List, [], ◌∷◌,
  ◌++◌, map, ◌==◌, ◌/◌, ◌^◌, ltb,
}
use whyslow.Ebpf.Probes.{Probes}
use whyslow.Base.Text.{Text, codes, decimal}
use whyslow.Base.Result.{ok, err, Anyhow, context}
use whyslow.Ui.Paint.{blue, bold, banner}
use whyslow.Trace.Defs.{TraceEvent, TraceFile, capture_anchor}
use whyslow.Trace.Disk.{write_to, read_from}
use whyslow.Causal.Explain.{explain, print_chains}
use whyslow.Child.{join, spawn_stopped, wait_until_stopped, resume, has_exited}
use whyslow.Bpf.Load.{load_and_attach}
use whyslow.Bpf.Target.{set_target_tgid}
use whyslow.Bpf.Drain.{Round, drain_ring_buffer}
use whyslow.Main.Effects.{
  spawned, attached, target_set, clocks_read, resumed, handler_set, wrote, left_behind, Out, did,
  panics, banner_site, start_site, blank_site, chains_site, prints, failed_with, returned,
  still_waiting, on_ok, Polled, Watched, World,
}

unfoldable pub require_root : ℕ → Anyhow Unit
require_root euid =
    if euid == 0
    then ok tt
    else err (
        codes
          "whyslow needs root or CAP_BPF to load its eBPF programs. Try again with sudo (this includes containers / restricted cloud shells / WSL without CAP_BPF configured -- see README.md)."
        ∷ [])

-- A round of the drain in `run`, which stops once the child has exited.
abbrev pub round_of : ℕ → Polled → Round
round_of pid p = record { items = p.items; stop = has_exited pid p.ret }

-- `duration_secs.map(…)`, in nanoseconds; `none` where the addition panics, which it does if the seconds
-- of the sum are out of the range of an `i64`.
abbrev pub deadline_of : ℕ → Option ℕ → Option (Option ℕ)
deadline_of started none = some none
deadline_of started (some secs) =
    if ltb (started / 1_000_000_000 + secs) (2 ^ 63)
    then some (some (started + secs * 1_000_000_000))
    else none

abbrev pub on_deadline : Option (Option ℕ) → (Option ℕ → Out) → Out
on_deadline none next = panics
on_deadline (some deadline) next = next deadline

-- What the handler leaves in `STOP_REQUESTED`.
abbrev pub handle_sigint : Bool → Bool
handle_sigint flag = true

-- `STOP_REQUESTED` once the handler has run so many times.
unfoldable pub stop_requested : ℕ → Bool
stop_requested zero = false
stop_requested (suc n) = handle_sigint (stop_requested n)

-- The closure that `attach` stops by.
unfoldable pub should_stop : Option ℕ → Watched → Bool
should_stop none q = if stop_requested q.sigints then true else q.is_gone
should_stop (some at) q =
    if stop_requested q.sigints then true else if leb at q.now then true else q.is_gone

-- A round of the drain in `attach`.
abbrev pub watch_of : Option ℕ → Watched → Round
watch_of deadline q = record { items = q.items; stop = should_stop deadline q }

-- The end of a drain, if there is one.
abbrev pub on_drained : Option (Anyhow (List TraceEvent)) → (List TraceEvent → Out) → Out
on_drained none next = still_waiting
on_drained (some drained) next = on_ok drained next

module _ (w : World) where
  -- The end of every command: explaining a trace, and printing the chains.
  unfoldable pub print_explained : TraceFile → ℕ → Out
  print_explained trace slowest = elim (explain w.env trace slowest) [
    | none ↦ still_waiting
    | some chains ↦ prints (w.stdout chains_site) (print_chains w.env chains) returned
  ]

  -- The end of `run` and of `attach`, from where the write has ended; `content` is what it leaves.
  abbrev pub once_written : TraceFile → Text → ℕ → Option (List ℕ) → Anyhow Unit → Out
  once_written trace_file trace_out slowest content (ok _) =
      did (wrote trace_out trace_file)
        (prints (w.stdout blank_site) ([] ∷ []) (print_explained trace_file slowest))
  once_written trace_file trace_out slowest content (err why) =
      did (left_behind trace_out content) (failed_with why)

  unfoldable pub save_and_print : ℕ × ℕ → List TraceEvent → Text → ℕ → Out
  save_and_print anchor events trace_out slowest =
      let trace_file : TraceFile = record {
        realtime_anchor_ns = anchor.0;
        monotonic_anchor_ns = anchor.1;
        events = events;
      } in
      let written = write_to w.serde w.disk trace_file trace_out w.files in
      let content = written.0 trace_out in
      once_written trace_file trace_out slowest content
        (context (codes "writing trace to " ++ trace_out) written.1)

  -- Both commands load, attach, and set the target in this order; `rest` goes on with the programs in
  -- the state in which the call leaves them.
  unfoldable pub trace_target : ℕ → (Probes w.maps → Out) → Out
  trace_target pid rest =
      let loaded = load_and_attach w.bpf in
      let set = set_target_tgid w.maps w.target_map w.set_answer pid w.probes in
      did (attached loaded.0)
        (on_ok loaded.1 (λ _. on_ok set.1 (λ _. did (target_set set.0.target) (rest set.0))))

  -- `run`, from where the clocks are read.
  unfoldable pub run_child : ℕ → Text → ℕ → Probes w.maps → Out
  run_child pid trace_out slowest s =
      let anchor = capture_anchor w.realtime w.monotonic in
      let rounds = map (round_of pid) (w.polls s) in
      did (clocks_read anchor) (
        on_ok (context (codes "resuming child after attaching BPF") (resume pid w.detach)) (λ _.
          did (resumed pid) (
            on_drained (drain_ring_buffer w.events_map rounds (w.last s))
              (λ events. save_and_print anchor events trace_out slowest))))

  -- `run`, from where the wait for the child is answered, or still goes on.
  unfoldable pub run_stopped : ℕ → Text → ℕ → Option (Anyhow Unit) → Out
  run_stopped pid trace_out slowest none = still_waiting
  run_stopped pid trace_out slowest (some waited) =
      on_ok (context (codes "waiting for child to reach pre-exec stop point") waited)
        (λ _. trace_target pid (run_child pid trace_out slowest))

  unfoldable pub run_spawned : ℕ → Text → ℕ → Out
  run_spawned pid trace_out slowest =
      did (spawned pid) (run_stopped pid trace_out slowest (wait_until_stopped pid w.waits))

  abbrev pub tracing_line : List Text → List Text
  tracing_line command =
      (blue w.env.terminal (codes "▸ tracing:") ++ b' ' ∷ bold w.env.terminal (join command)) ∷ []

  unfoldable pub run : List Text → Text → ℕ → Out
  run command trace_out slowest = on_ok (require_root w.euid) (λ _.
      prints (w.stdout banner_site) (banner w.env.terminal) (
        prints (w.stdout start_site) (tracing_line command)
          (on_ok (spawn_stopped command w.child) (λ pid. run_spawned pid trace_out slowest))))

  abbrev pub watching_line : ℕ → List Text
  watching_line pid =
      (codes "whyslow: tracing pid "
        ++ decimal pid
        ++ codes ", press Ctrl-C to stop and print results...")
      ∷ []

  -- `attach`, from where the drain starts.
  unfoldable pub attach_drain : ℕ × ℕ → Text → ℕ → Probes w.maps → Option ℕ → Out
  attach_drain anchor trace_out slowest s deadline =
      on_drained (drain_ring_buffer w.events_map (map (watch_of deadline) (w.watches s)) (w.last s))
        (λ events. save_and_print anchor events trace_out slowest)

  -- `attach`, from where the clocks are read.
  unfoldable pub attach_watch : ℕ → Text → ℕ → Option ℕ → Probes w.maps → Out
  attach_watch pid trace_out slowest duration_secs s =
      let anchor = capture_anchor w.realtime w.monotonic in
      did (clocks_read anchor) (
        did handler_set (
          prints (w.stdout start_site) (watching_line pid) (
            on_deadline (deadline_of w.started duration_secs)
              (attach_drain anchor trace_out slowest s))))

  unfoldable pub attach : ℕ → Text → ℕ → Option ℕ → Out
  attach pid trace_out slowest duration_secs = on_ok (require_root w.euid) (λ _.
      prints (w.stdout banner_site) (banner w.env.terminal) (
        if w.is_running
        then trace_target pid (attach_watch pid trace_out slowest duration_secs)
        else failed_with ((codes "no such process: " ++ decimal pid) ∷ [])))

  unfoldable pub explain_cmd : Text → ℕ → Out
  explain_cmd path slowest =
      on_ok (context (codes "reading trace from " ++ path) (read_from w.serde w.disk path w.files))
        (λ trace. print_explained trace slowest)
