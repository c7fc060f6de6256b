-- ===== src/Main/Tests.antt =====
-- The theorems on the commands at a world in which every call succeeds.
use whyslow.Base.{
  ◌⊎◌, ℕ, Bool, ◌≡◌, refl, ap, sym, subst, ◌↔◌, inl, inr, true, false, none, some, List, [], ◌∷◌,
  ◌++◌, map, arith, All,
}
use whyslow.Base.Text.{Text, codes}
use whyslow.Base.Result.{ok, found}
use whyslow.Trace.Defs.{TraceFile, from_event}
use whyslow.Trace.Concrete.{numbers, numbers-Restores}
use whyslow.Causal.Explain.{Chain, explain}
use whyslow.Child.{
  IsTraced, Waited, changed, stopped, neither, IsPassed, wait_until_stopped,
  wait_until_stopped-ok_iff, resume, spawn_stopped,
}
use whyslow.Ebpf.Probes.{loaded}
use whyslow.Ebpf.Concrete.{maps}
use whyslow.Bpf.Layout.{in_memory, decode_event, decode_event-in_memory}
use whyslow.Bpf.Load.{
  Works, tracepoints, load_and_attach, load_and_attach-ok_iff, attach_all, attach_one,
}
use whyslow.Bpf.Target.{set_target_tgid}
use whyslow.Bpf.Drain.{bytes, drain_ring_buffer, drain_ring_buffer-events}
use whyslow.Main.Effects.{Effect, Watched, printed, resumed, wrote, World, TakesAll}
use whyslow.Main.Commands.{attach, run, require_root}
use whyslow.Main.Order.{Happens, Prepared, run-resumed}
use whyslow.Main.Whole.{traced, Records, run-traces_child}
use whyslow.Bpf.Session.{session}
use whyslow.Ebpf.Probes.{
  after, probe, try_sched_switch, switch_out, switch_in, put_block, emit, target_tgid, current_tgid,
}
use whyslow.Main.Cli.{run_args, filled, Command, run_command, explain_command, try_main}
use whyslow.Main.Reread.{files_after, try_main-explain}
use whyslow.Main.Outcome.{file_of, run-wrote, run_first, ending_of}
use whyslow.Main.Attach.{attach_first}
use whyslow.Main.Live.{run-live}
use whyslow.Main.Watching.{attach-live}
use whyslow.Bpf.Rounds.{Happening}
use whyslow.Bpf.Live.{Live}
use whyslow.Main.Sample.{
  quiet_env, one_event, one_sent, answering, seen, gone, world, out_path, argv, one_sent-IsWhole,
  two_switches, traces_70, when,
}
use whyslow.Main.Cli.{main}
use whyslow.Main.Exit.{main-code_iff, main-code_once_written}
use whyslow.Ebpf.Refines.{HasRoomThroughout}
use whyslow.Ebpf.Reference.{events_of}
use whyslow.Ebpf.Room.{few-HasRoom}

decode_event-in_memory_example :
    decode_event (in_memory one_event (9 ∷ 9 ∷ 9 ∷ 9 ∷ [])) ≡ some one_event
decode_event-in_memory_example =
    decode_event-in_memory one_event (9 ∷ 9 ∷ 9 ∷ 9 ∷ []) one_sent-IsWhole.0.0 refl

drain_ring_buffer-events_example :
    drain_ring_buffer found
      (record { items = map bytes one_sent; stop = false }
        ∷ record { items = []; stop = true }
        ∷ [])
      (map bytes one_sent)
    ≡ some (ok (map (λ x. from_event x.0) (one_sent ++ one_sent)))
drain_ring_buffer-events_example =
    drain_ring_buffer-events (record { items = map bytes one_sent; stop = false } ∷ []) []
      (record { items = []; stop = true }) (map bytes one_sent) (one_sent ++ one_sent) (refl, tt)
      refl (one_sent-IsWhole.0, (one_sent-IsWhole.0, tt)) refl

wait_until_stopped-ok_iff_example :
    (wait_until_stopped 70 (changed neither ∷ changed stopped ∷ []) ≡ some (ok tt)) ↔ (
      (before later : List Waited) × All IsPassed before
      × (changed neither ∷ changed stopped ∷ [] ≡ before ++ changed stopped ∷ later))
wait_until_stopped-ok_iff_example =
    wait_until_stopped-ok_iff 70 (changed neither ∷ changed stopped ∷ [])

load_and_attach-ok_iff_example :
    (((load_and_attach answering).1 ≡ ok tt)
      ↔ ((answering.object_answer ≡ none) × All (Works answering) tracepoints))
    × (((load_and_attach answering).1 ≡ ok tt) → (load_and_attach answering).0 ≡ tracepoints)
load_and_attach-ok_iff_example = load_and_attach-ok_iff answering

abbrev taken : TakesAll world
taken site = refl

the_run :
    (chains : List Chain) × (explain quiet_env (file_of world out_path 3 one_sent) 3 ≡ some chains)
    × (run world argv out_path 3 ≡ record {
      effects = run_first world out_path 3 argv 70 ++ ending_of world out_path 3 one_sent chains;
      result = some (ok tt);
    })
unfolding require_root spawn_stopped wait_until_stopped load_and_attach attach_all attach_one
    set_target_tgid resume after
the_run =
    run-wrote world out_path 3 argv 70 (traced world 70 []) (seen ∷ []) [] gone one_sent taken refl
      refl refl refl refl refl refl refl refl (ground arith, tt) refl one_sent-IsWhole refl
      (refl, refl)

the_run_resumes : Happens (resumed 70) (run world argv out_path 3)
the_run_resumes =
    let (chains, _, e) = the_run in
    subst (Happens (resumed 70)) (sym e) (inr (inr (inr (inr (inr (inr (inl refl)))))))

run-resumed_example :
    (pid : ℕ) × IsTraced world.child pid × Prepared pid (run world argv out_path 3)
run-resumed_example = run-resumed world out_path 3 argv 70 the_run_resumes

run-traces_child_example :
    (file : TraceFile) × Happens (wrote out_path file) (run world argv out_path 3)
    × All (λ e. e.pid ≡ 70) file.events
unfolding require_root spawn_stopped wait_until_stopped load_and_attach attach_all attach_one
    set_target_tgid resume session after probe try_sched_switch switch_out switch_in put_block emit
    target_tgid current_tgid
run-traces_child_example =
    run-traces_child world out_path 3 argv 70 (seen ∷ []) [] gone one_sent [] two_switches refl
      taken refl refl refl refl refl refl refl refl refl refl (ground arith, tt) refl
      one_sent-IsWhole refl refl (refl, refl)

abbrev watched : Watched
watched = record { items = map bytes one_sent; sigints = 0; now = 10; is_gone = false }

abbrev interrupted : Watched
interrupted = record { items = []; sigints = 1; now = 20; is_gone = false }

abbrev watched_world : World
watched_world = record world {
  watches = λ s. when (traces_70 s.target) (watched ∷ interrupted ∷ []);
}

abbrev run_it : Command
run_it = run_command out_path 3 argv

-- Later, with the files that `run` leaves.
abbrev later_world : World
later_world = record world {
  files = files_after numbers world.disk (try_main world run_it).effects world.files;
}

run_it_fine : (try_main world run_it).result ≡ some (ok tt)
unfolding try_main
run_it_fine = let (chains, _, e) = the_run in ap (λ out. out.result) e

try_main-explain_example :
    (before : List Effect) × (chains : List Text) × ((try_main world run_it).effects
      ≡ before ++ printed chains ∷ [])
    × (try_main later_world (explain_command 3 out_path)
        ≡ record { effects = printed chains ∷ []; result = some (ok tt) })
try_main-explain_example =
    try_main-explain world later_world run_it out_path 3 refl run_it_fine (λ site. refl)
      numbers-Restores refl refl refl refl refl

two_switches-HasRoom :
    HasRoomThroughout maps
      (set_target_tgid maps found none 70 (after maps (loaded maps) [])).0
      two_switches
unfolding set_target_tgid after probe try_sched_switch switch_out switch_in put_block emit
    target_tgid current_tgid
two_switches-HasRoom = (few-HasRoom _ refl, (few-HasRoom _ refl, tt))

main-code_iff_example :
    ((main world run_it).code ≡ some 0)
    ↔ ((t : TraceFile) × Happens (wrote out_path t) (try_main world run_it))
main-code_iff_example = main-code_iff world run_it out_path 3 taken refl

it_writes : Happens (wrote out_path (file_of world out_path 3 one_sent)) (try_main world run_it)
unfolding try_main
it_writes =
    let (chains, _, e) = the_run in
    subst (Happens (wrote out_path (file_of world out_path 3 one_sent))) (sym e)
      (inr (inr (inr (inr (inr (inr (inr (inl refl))))))))

main-code_once_written_example :
    ((main world run_it).code ≡ some 0) ⊎ (((main world run_it).code ≡ some 101) × ¬ TakesAll world)
main-code_once_written_example =
    main-code_once_written world run_it out_path 3 (file_of world out_path 3 one_sent) refl
      it_writes

abbrev padding : ℕ → List ℕ
padding i = 9 ∷ 9 ∷ 9 ∷ 9 ∷ []

-- Both switches come before the first call of `ring.next()`; the second finds nothing.
abbrev one_round : List (Happening ℕ)
one_round = ((two_switches ∷ [] ∷ []), 0) ∷ []

abbrev taken_one : Live
taken_one = record { hits = two_switches; taken = 1 }

run-live_example :
    Records world out_path 3
      (run_first world out_path 3 argv 70)
      (events_of 70 two_switches)
      (run world argv out_path 3)
unfolding require_root spawn_stopped wait_until_stopped load_and_attach attach_all attach_one
    set_target_tgid resume session after probe try_sched_switch switch_out switch_in put_block emit
    target_tgid current_tgid
run-live_example =
    run-live world out_path 3 argv 70 [] padding one_round ([] ∷ []) ([] ∷ []) (seen ∷ []) [] gone
      taken_one taken_one taken_one refl taken (omega arith) (λ i. refl) refl refl refl refl refl
      refl refl refl refl refl refl refl refl (ground arith, tt) refl refl (search arith)
      two_switches-HasRoom (refl, refl)

defaults : filled (run_args none none argv) ≡ some (run_command (codes "whyslow.trace.json") 3 argv)
unfolding filled
defaults = refl

-- The same hits in the first round of `attach`; SIGINT has come before the second.
abbrev watched_round : List (Happening (ℕ × ℕ × Bool))
watched_round = ((two_switches ∷ [] ∷ []), (0, 10, false)) ∷ []

attach-live_example :
    Records watched_world out_path 3
      (attach_first watched_world out_path 3 70)
      (events_of 70 two_switches)
      (attach watched_world 70 out_path 3 (some 1))
unfolding require_root load_and_attach attach_all attach_one set_target_tgid session after probe
    try_sched_switch switch_out switch_in put_block emit target_tgid current_tgid
attach-live_example =
    attach-live watched_world out_path 3 70 (some 1) (some 1_000_000_000) [] padding watched_round
      ([] ∷ []) ([] ∷ []) (watched ∷ []) [] interrupted taken_one taken_one taken_one refl
      (λ site. refl) (omega arith) (λ i. refl) refl refl refl refl refl refl (omega arith, refl)
      refl refl refl refl refl ((λ over. ground arith), tt) (inl (omega arith)) refl (search arith)
      two_switches-HasRoom (refl, refl)
