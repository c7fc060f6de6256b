-- ===== src/Main/Reports.antt =====
-- whyslow-cli/src/main.rs: how a command that traces ends, and what that says of its trace.
use whyslow.Base.{
  ℕ, ◌≡◌, refl, ap, sym, ◌∙◌, subst, inl, inr, Option, none, some, List, [], ◌∷◌, ◌++◌, arith,
}
use whyslow.Base.Text.{Text, codes, decimal}
use whyslow.Base.Result.{ok, err, Anyhow, context}
use whyslow.Ui.Paint.{banner}
use whyslow.Trace.Defs.{TraceEvent, TraceFile}
use whyslow.Trace.Disk.{write_to}
use whyslow.Causal.Explain.{Chain, explain, print_chains}
use whyslow.Causal.Report.{explain-size}
use whyslow.Bpf.Load.{load_and_attach}
use whyslow.Bpf.Target.{set_target_tgid}
use whyslow.Child.{resume, spawn_stopped}
use whyslow.Main.Effects.{
  left_behind, still_waiting, failed_with, spawned, printed, wrote, Out, did, returned, resumed,
  target_set, clocks_read, handler_set, prints, banner_site, start_site, blank_site, chains_site,
  World,
}
use whyslow.Ebpf.Probes.{Probes}
use whyslow.Main.Cli.{Command, run_command, attach_command, explain_command, try_main}
use whyslow.Main.Commands.{
  require_root, run, run_stopped, run_spawned, run_child, attach, attach_watch, trace_target,
  save_and_print, print_explained, tracing_line, watching_line, once_written, on_drained,
  attach_drain, deadline_of,
}
use whyslow.Main.Printing.{prints-cases, prints-fine}
use whyslow.Main.Reporting.{
  Reports, neither, did-Reports, if-Reports, prints-Reports, on_ok-Reports, on_deadline-Reports,
}

module _ (w : World) (trace_out : Text) (slowest : ℕ) where
  print_explained-lem :
      (t : TraceFile)
      → (chains : List Chain) × (explain w.env t slowest ≡ some chains)
        × (print_explained w t slowest
            ≡ prints (w.stdout chains_site) (print_chains w.env chains) returned)
  unfolding print_explained
  print_explained-lem t =
      let (chains, explained, _, _) = explain-size w.env t slowest in
      (chains, explained, rw (explained, print_explained) refl)

  once_written-Reports :
      (t : TraceFile) (content : Option (List ℕ)) (answer : Anyhow Unit)
      → (write_to w.serde w.disk t trace_out w.files).1 ≡ answer
      → Reports w trace_out slowest (
          once_written w t trace_out slowest content
            (context (codes "writing trace to " ++ trace_out) answer))
  once_written-Reports t content (ok _) writes =
      let (chains, explained, same) = print_explained-lem t in
      (
        λ fine.
            let (fine', blank) =
              prints-fine (w.stdout blank_site) ([] ∷ []) (print_explained w t slowest) fine in
            let (_, all) =
              prints-fine (w.stdout chains_site) (print_chains w.env chains) returned
                (ap (λ out. out.result) (sym same) ∙ fine') in
            (
              t,
              chains,
              [],
              writes,
              explained,
              ap (λ out. wrote trace_out t ∷ out.effects)
                  (blank ∙ ap (did (printed ([] ∷ []))) (same ∙ all)),
            ),
        λ t' h. elim (prints-cases (w.stdout blank_site) ([] ∷ []) (print_explained w t slowest)) [
          | inr (panics, cut) ↦ inr (panics, λ takes. cut (takes blank_site))
          | inl blank ↦
              let at : (prints (w.stdout blank_site) ([] ∷ []) (print_explained w t slowest)).result
                  ≡ (prints (w.stdout chains_site) (print_chains w.env chains) returned).result =
                ap (λ out. out.result) (blank ∙ ap (did (printed ([] ∷ []))) same) in
              elim (prints-cases (w.stdout chains_site) (print_chains w.env chains) returned) [
                | inr (panics, cut) ↦ inr (at ∙ panics, λ takes. cut (takes chains_site))
                | inl all ↦ inl (at ∙ ap (λ out. out.result) all)
              ]
        ],
      )
  once_written-Reports t content (err why) writes =
      did-Reports w trace_out slowest (left_behind trace_out content)
        (failed_with ((codes "writing trace to " ++ trace_out) ∷ why)) refl
        (neither w trace_out slowest (failed_with ((codes "writing trace to " ++ trace_out) ∷ why))
          (λ fine. ground arith) refl)

  save_and_print-Reports :
      (anchor : ℕ × ℕ) (events : List TraceEvent)
      → Reports w trace_out slowest (save_and_print w anchor events trace_out slowest)
  unfolding save_and_print
  save_and_print-Reports anchor events = once_written-Reports _ _ _ refl

  on_drained-Reports :
      (drained : Option (Anyhow (List TraceEvent))) (anchor : ℕ × ℕ)
      → Reports w trace_out slowest
          (on_drained drained (λ events. save_and_print w anchor events trace_out slowest))
  on_drained-Reports none anchor =
      neither w trace_out slowest still_waiting (λ fine. ground arith) refl
  on_drained-Reports (some drained) anchor =
      on_ok-Reports w trace_out slowest drained _ (save_and_print-Reports anchor)

  run_child-Reports :
      (pid : ℕ) (s : Probes w.maps)
      → Reports w trace_out slowest (run_child w pid trace_out slowest s)
  unfolding run_child
  run_child-Reports pid s = did-Reports w trace_out slowest (clocks_read _) _ refl (
      on_ok-Reports w trace_out slowest
        (context (codes "resuming child after attaching BPF") (resume pid w.detach)) _
        (λ _. did-Reports w trace_out slowest (resumed pid) _ refl (on_drained-Reports _ _)))

  trace_target-Reports :
      (pid : ℕ) (rest : Probes w.maps → Out)
      → ((s : Probes w.maps) → Reports w trace_out slowest (rest s))
      → Reports w trace_out slowest (trace_target w pid rest)
  unfolding trace_target
  trace_target-Reports pid rest reports = did-Reports w trace_out slowest _ _ refl (
      on_ok-Reports w trace_out slowest (load_and_attach w.bpf).1 _ (λ _.
        on_ok-Reports w trace_out slowest
          (set_target_tgid w.maps w.target_map w.set_answer pid w.probes).1 _
          (λ _. did-Reports w trace_out slowest (target_set _) _ refl (reports _))))

  run_stopped-Reports :
      (pid : ℕ) (waits : Option (Anyhow Unit))
      → Reports w trace_out slowest (run_stopped w pid trace_out slowest waits)
  unfolding run_stopped
  run_stopped-Reports pid none =
      neither w trace_out slowest still_waiting (λ fine. ground arith) refl
  run_stopped-Reports pid (some waited) =
      on_ok-Reports w trace_out slowest
        (context (codes "waiting for child to reach pre-exec stop point") waited) _
        (λ _. trace_target-Reports pid _ (run_child-Reports pid))

  pub run-Reports :
      (command : List Text) → Reports w trace_out slowest (run w command trace_out slowest)
  unfolding run run_spawned
  run-Reports command = on_ok-Reports w trace_out slowest (require_root w.euid) _ (λ _.
      prints-Reports w trace_out slowest (w.stdout banner_site) (banner w.env.terminal) _ (
        prints-Reports w trace_out slowest (w.stdout start_site) (tracing_line w command) _ (
          on_ok-Reports w trace_out slowest (spawn_stopped command w.child) _ (λ pid.
            did-Reports w trace_out slowest (spawned pid) _ refl (run_stopped-Reports pid _)))))

  attach_watch-Reports :
      (pid : ℕ) (duration_secs : Option ℕ) (s : Probes w.maps)
      → Reports w trace_out slowest (attach_watch w pid trace_out slowest duration_secs s)
  unfolding attach_watch attach_drain
  attach_watch-Reports pid duration_secs s =
      did-Reports w trace_out slowest (clocks_read _) _ refl (
        did-Reports w trace_out slowest handler_set _ refl (
          prints-Reports w trace_out slowest (w.stdout start_site) (watching_line w pid) _ (
            on_deadline-Reports w trace_out slowest (deadline_of w.started duration_secs) _
              (λ deadline. on_drained-Reports _ _))))

  pub attach-Reports :
      (pid : ℕ) (duration_secs : Option ℕ)
      → Reports w trace_out slowest (attach w pid trace_out slowest duration_secs)
  unfolding attach
  attach-Reports pid duration_secs = on_ok-Reports w trace_out slowest (require_root w.euid) _ (λ _.
      prints-Reports w trace_out slowest (w.stdout banner_site) (banner w.env.terminal) _ (
        if-Reports w trace_out slowest w.is_running _ _
          (trace_target-Reports pid _ (attach_watch-Reports pid duration_secs))
          (neither w trace_out slowest
            (failed_with ((codes "no such process: " ++ decimal pid) ∷ [])) (λ fine. ground arith)
            refl)))

-- Where a command that traces writes its trace, and how many chains it prints.
abbrev pub saves_to : Command → Option (Text × ℕ)
saves_to (run_command trace_out slowest command) = some (trace_out, slowest)
saves_to (attach_command pid trace_out slowest duration_secs) = some (trace_out, slowest)
saves_to (explain_command slowest trace) = none

saved_or : Text × ℕ → Option (Text × ℕ) → Text × ℕ
saved_or other none = other
saved_or other (some saved) = saved

-- A command that traces and returns without an error has written a trace, printed a blank line and the
-- chains of the trace last; and one that has written a trace returns without an error, or panics since
-- the standard output did not take a line.
pub try_main-Reports :
    (w : World) (command : Command) (trace_out : Text) (slowest : ℕ)
    → saves_to command ≡ some (trace_out, slowest)
    → Reports w trace_out slowest (try_main w command)
unfolding try_main saved_or
try_main-Reports w (run_command trace_out slowest command) out n same =
    let at = ap (saved_or (out, n)) same in
    subst (λ x. Reports w x.0 x.1 (run w command trace_out slowest)) at
      (run-Reports w trace_out slowest command)
try_main-Reports w (attach_command pid trace_out slowest duration_secs) out n same =
    let at = ap (saved_or (out, n)) same in
    subst (λ x. Reports w x.0 x.1 (attach w pid trace_out slowest duration_secs)) at
      (attach-Reports w trace_out slowest pid duration_secs)
try_main-Reports w (explain_command slowest trace) out n same = absurd (ground arith)
