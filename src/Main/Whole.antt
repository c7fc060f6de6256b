-- ===== src/Main/Whole.antt =====
-- The whole of `whyslow run`: the programs of whyslow-ebpf/src/main.rs, the drain of
-- whyslow-cli/src/bpf.rs and the commands of whyslow-cli/src/main.rs together.
use whyslow.Base.{
  ℕ, ◌≡◌, ◌≢◌, refl, sym, ap, ◌∙◌, subst, inl, inr, false, none, some, List, [], ◌∷◌, ◌++◌, map,
  All, ◌==◌,
}
use whyslow.Base.Text.{Text}
use whyslow.Base.Result.{ok, found}
use whyslow.Event.Schema.{Event}
use whyslow.Trace.Defs.{TraceFile, capture_anchor, from_event}
use whyslow.Ebpf.Probes.{Hit, Probes, after, loaded}
use whyslow.Ebpf.Reference.{events_of}
use whyslow.Ebpf.Refines.{HasRoomThroughout}
use whyslow.Bpf.Complete.{session-events_of}
use whyslow.Causal.Explain.{Chain, explain, print_chains}
use whyslow.Bpf.Load.{load_and_attach}
use whyslow.Bpf.Target.{set_target_tgid}
use whyslow.Bpf.Drain.{Sent, bytes, IsWhole}
use whyslow.Bpf.Session.{session, session-Emitted}
use whyslow.Child.{resume, wait_until_stopped, spawn_stopped}
use whyslow.Main.Effects.{Out, Effect, printed, wrote, World, Polled, TakesAll}
use whyslow.Main.Commands.{require_root, run}
use whyslow.Main.Order.{Happens}
use whyslow.Main.Polling.{found_items}
use whyslow.Main.Outcome.{file_of, run-wrote, run_first}

events_of_target :
    (pid : ℕ) (sent : List Sent)
    → All (λ ev. ev.pid ≡ pid) (map (λ x. x.0) sent)
    → All (λ e. e.pid ≡ pid) (map (λ x. from_event x.0) sent)
unfolding from_event
events_of_target pid [] all = tt
events_of_target pid (x ∷ sent) all = (all.0, events_of_target pid sent all.1)

pids :
    (pid : ℕ) (P : Event → Type 0) (evs : List Event)
    → All (λ ev. (ev.pid ≡ pid) × P ev) evs
    → All (λ ev. ev.pid ≡ pid) evs
pids pid P [] all = tt
pids pid P (ev ∷ evs) all = (all.0.0, pids pid P evs all.1)

-- The state in which setting the target to `pid` leaves the programs, after the hits `before` it.
abbrev pub traced : (w : World) → ℕ → List Hit → Probes w.maps
traced w pid before =
    (set_target_tgid w.maps found none pid (after w.maps (loaded w.maps) before)).0

pub set_target_tgid-traced :
    (w : World) (pid : ℕ) (before : List Hit)
    → w.target_map ≡ found
    → w.set_answer ≡ none
    → w.probes ≡ after w.maps (loaded w.maps) before
    → set_target_tgid w.maps w.target_map w.set_answer pid w.probes ≡ (traced w pid before, ok tt)
unfolding set_target_tgid
set_target_tgid-traced w pid before target answer state =
    ap (λ m. set_target_tgid w.maps m w.set_answer pid w.probes) target
    ∙ ap (λ a. set_target_tgid w.maps found a pid w.probes) answer
    ∙ ap (λ s. set_target_tgid w.maps found none pid s) state

pub traced-target :
    (w : World) (pid : ℕ) (before : List Hit) → (traced w pid before).target ≡ some pid
unfolding set_target_tgid
traced-target w pid before = refl

module _ (w : World) (trace_out : Text) (slowest : ℕ) where
  -- Suppose that the calls of `run` succeed and the standard output takes every line, that what the drain
  -- finds depends on the state in which setting the target leaves the programs, and that in the state
  -- with the child as the target the child is seen to have exited and the drain finds the bytes of the
  -- events that the programs have submitted by the end of the hits that follow. Then `run` writes a trace
  -- file in which every event is of the child, whatever else hit the tracepoints, before the target
  -- was set or after.
  pub run-traces_child :
      (command : List Text) (pid : ℕ) (polls later : List Polled) (p : Polled) (sent : List Sent)
      (before hits : List Hit)
      → (pid == 0) ≡ false
      → TakesAll w
      → require_root w.euid ≡ ok tt
      → spawn_stopped command w.child ≡ ok pid
      → wait_until_stopped pid w.waits ≡ some (ok tt)
      → (load_and_attach w.bpf).1 ≡ ok tt
      → w.target_map ≡ found
      → w.set_answer ≡ none
      → w.probes ≡ after w.maps (loaded w.maps) before
      → resume pid w.detach ≡ ok tt
      → w.events_map ≡ found
      → w.polls (traced w pid before) ≡ polls ++ p ∷ later
      → All (λ q. q.ret ≢ pid) polls
      → p.ret ≡ pid
      → All IsWhole sent
      → found_items polls ++ (p.items ++ w.last (traced w pid before)) ≡ map bytes sent
      → map (λ x. x.0) sent ≡ w.maps.ring.queued (session w.maps pid before hits).events
      → (w.disk.create ≡ none) × (w.disk.writer ≡ none)
      → (file : TraceFile) × Happens (wrote trace_out file) (run w command trace_out slowest)
        × All (λ e. e.pid ≡ pid) file.events
  run-traces_child command pid polls later p sent before hits set takes root spawns waits loads
        target answer state resumes maps polled quiet exits whole same all writes =
      let (chains, _, ran) =
        run-wrote w trace_out slowest command pid (traced w pid before) polls later p sent takes
          root spawns waits loads (set_target_tgid-traced w pid before target answer state)
          (traced-target w pid before) resumes maps polled quiet exits whole same writes in
      let of_child = pids pid _ _ (session-Emitted w.maps pid before hits set) in
      (
        file_of w trace_out slowest sent,
        subst (Happens (wrote trace_out (file_of w trace_out slowest sent))) (sym ran)
            (inr (inr (inr (inr (inr (inr (inr (inl refl)))))))),
        events_of_target pid sent (subst (λ evs. All (λ ev. ev.pid ≡ pid) evs) (sym all) of_child),
      )

pub map-from_event :
    (sent : List Sent)
    → map (λ (x : Sent). from_event x.0) sent ≡ map from_event (map (λ (x : Sent). x.0) sent)
map-from_event [] = refl
map-from_event (x ∷ sent) = ap (◌∷◌ (from_event x.0)) (map-from_event sent)

-- The command returns without an error; all that it has done is the effects `first`, writing a trace of
-- these events, with the anchors that it read, and printing a blank line and the chains that `explain`
-- returns for this trace.
abbrev pub Records : World → Text → ℕ → List Effect → List Event → Out → Type 0
Records w trace_out slowest first evs out =
    (file : TraceFile) × (chains : List Chain) × (file ≡ record {
      realtime_anchor_ns = (capture_anchor w.realtime w.monotonic).0;
      monotonic_anchor_ns = (capture_anchor w.realtime w.monotonic).1;
      events = map from_event evs;
    })
    × (explain w.env file slowest ≡ some chains)
    × (out ≡ record {
      effects =
          first
          ++ wrote trace_out file ∷ printed ([] ∷ []) ∷ printed (print_chains w.env chains) ∷ [];
      result = some (ok tt);
    })

module _ (w : World) (trace_out : Text) (slowest : ℕ) where
  -- If, under the same conditions, the maps and the ring buffer have room at each hit of the session, then
  -- the events in the file are, in this order and no others, the events of the hits by the reference.
  pub run-Records :
      (command : List Text) (pid : ℕ) (polls later : List Polled) (p : Polled) (sent : List Sent)
      (before hits : List Hit)
      → (pid == 0) ≡ false
      → TakesAll w
      → require_root w.euid ≡ ok tt
      → spawn_stopped command w.child ≡ ok pid
      → wait_until_stopped pid w.waits ≡ some (ok tt)
      → (load_and_attach w.bpf).1 ≡ ok tt
      → w.target_map ≡ found
      → w.set_answer ≡ none
      → w.probes ≡ after w.maps (loaded w.maps) before
      → resume pid w.detach ≡ ok tt
      → w.events_map ≡ found
      → w.polls (traced w pid before) ≡ polls ++ p ∷ later
      → All (λ q. q.ret ≢ pid) polls
      → p.ret ≡ pid
      → All IsWhole sent
      → found_items polls ++ (p.items ++ w.last (traced w pid before)) ≡ map bytes sent
      → map (λ x. x.0) sent ≡ w.maps.ring.queued (session w.maps pid before hits).events
      → HasRoomThroughout w.maps (traced w pid before) hits
      → (w.disk.create ≡ none) × (w.disk.writer ≡ none)
      → Records w trace_out slowest
          (run_first w trace_out slowest command pid)
          (events_of pid hits)
          (run w command trace_out slowest)
  run-Records command pid polls later p sent before hits set takes root spawns waits loads target
        answer state resumes maps polled quiet exits whole same all room writes =
      let (chains, explained, ran) =
        run-wrote w trace_out slowest command pid (traced w pid before) polls later p sent takes
          root spawns waits loads (set_target_tgid-traced w pid before target answer state)
          (traced-target w pid before) resumes maps polled quiet exits whole same writes in
      let recorded =
        map-from_event sent
        ∙ ap (map from_event) (all ∙ session-events_of w.maps pid before hits set room) in
      (
        file_of w trace_out slowest sent,
        chains,
        ap
            (λ evs. record {
              realtime_anchor_ns = (capture_anchor w.realtime w.monotonic).0;
              monotonic_anchor_ns = (capture_anchor w.realtime w.monotonic).1;
              events = evs;
            })
            recorded,
        explained,
        ran,
      )
