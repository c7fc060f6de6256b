-- ===== src/Main/Live.antt =====
-- The whole of `whyslow run` while it happens: hits of the programs of whyslow-ebpf/src/main.rs between
-- the calls by which whyslow-cli/src/bpf.rs drains the ring buffer.
use whyslow.Base.{
  ℕ, ◌<◌, ◌^◌, ◌≡◌, ◌≢◌, refl, false, none, some, List, ◌∷◌, ◌++◌, All, ◌==◌, length,
}
use whyslow.Base.Text.{Text}
use whyslow.Base.Result.{ok, found}
use whyslow.Ebpf.Probes.{Hit, after, loaded}
use whyslow.Ebpf.Ranges.{HitFits}
use whyslow.Ebpf.Reference.{events_of}
use whyslow.Ebpf.Refines.{HasRoomThroughout}
use whyslow.Bpf.Load.{load_and_attach}
use whyslow.Bpf.Drain.{Item}
use whyslow.Bpf.Session.{session-InRange}
use whyslow.Bpf.Rounds.{Happening, at_start, serve_rounds, collected}
use whyslow.Bpf.Live.{Live, sent_from, map-sent_from, sent_from-IsWhole, queue_at, serve, drained}
use whyslow.Child.{resume, wait_until_stopped, spawn_stopped}
use whyslow.Main.Effects.{World, Polled, TakesAll}
use whyslow.Main.Commands.{require_root, run}
use whyslow.Main.Polling.{found_items}
use whyslow.Main.Outcome.{run_first}
use whyslow.Main.Whole.{traced, Records, run-Records}

-- A round of `run`: the answer is what `waitpid` returns.
abbrev pub polled_of : List Item → ℕ → Polled
polled_of items ret = record { items = items; ret = ret }

module _ (w : World) (trace_out : Text) (slowest : ℕ) where
  -- Suppose that the calls of `run` succeed and the standard output takes every line; that what the
  -- drain finds depends on the state in which setting the target leaves the programs; that in the state
  -- with the child as the target, after the hits `before`, the child is seen to have exited for the first
  -- time in the round after `polls`, and what the drain finds in each round, and at last, is what
  -- `ring.next()` gives while the programs go on from this state and are hit between its calls, the
  -- last of them finding nothing; that the values of these hits are in the ranges of their types; and
  -- that the maps and the ring buffer have room at each of them. Then `run` prints the banner and what it
  -- traces, spawns the child, attaches the five programs, sets the target to the child, reads the
  -- clocks, resumes the child, and after that writes a trace file with the anchors read, whose events
  -- are, in this order and no others, the events of all these hits by the reference; then it prints a
  -- blank line and the chains that `explain` returns for this file, does nothing else, and returns
  -- without an error.
  pub run-live :
      (command : List Text) (pid : ℕ) (before : List Hit) (gap : ℕ → List ℕ)
      (script : List (Happening ℕ)) (ending closing : List (List Hit)) (polls later : List Polled)
      (p : Polled) (rounds at_end at_last : Live)
      → (pid == 0) ≡ false
      → TakesAll w
      → pid < 2 ^ 32
      → ((i : ℕ) → length (gap i) ≡ 4)
      → require_root w.euid ≡ ok tt
      → spawn_stopped command w.child ≡ ok pid
      → wait_until_stopped pid w.waits ≡ some (ok tt)
      → (load_and_attach w.bpf).1 ≡ ok tt
      → w.target_map ≡ found
      → w.set_answer ≡ none
      → w.probes ≡ after w.maps (loaded w.maps) before
      → resume pid w.detach ≡ ok tt
      → w.events_map ≡ found
      → serve_rounds polled_of w.maps pid before gap script at_start ≡ (polls, rounds)
      → serve w.maps pid before gap ending rounds ≡ (p.items, at_end)
      → serve w.maps pid before gap closing at_end ≡ (w.last (traced w pid before), at_last)
      → w.polls (traced w pid before) ≡ polls ++ p ∷ later
      → All (λ q. q.ret ≢ pid) polls
      → p.ret ≡ pid
      → at_last.taken ≡ length (queue_at w.maps pid before gap at_last.hits)
      → All HitFits at_last.hits
      → HasRoomThroughout w.maps (traced w pid before) at_last.hits
      → (w.disk.create ≡ none) × (w.disk.writer ≡ none)
      → Records w trace_out slowest
          (run_first w trace_out slowest command pid)
          (events_of pid at_last.hits)
          (run w command trace_out slowest)
  run-live command pid before gap script ending closing polls later p rounds at_end at_last set
        takes low four root spawns waits loads target answer state resumes maps goes ends closes
        polled quiet exits all fits room writes =
      run-Records w trace_out slowest command pid polls later p
        (sent_from gap 0 (queue_at w.maps pid before gap at_last.hits)) before at_last.hits set
        takes root spawns waits loads target answer state resumes maps polled quiet exits
        (sent_from-IsWhole gap 0 _ four
          (session-InRange w.maps pid before at_last.hits set low fits))
        (drained w.maps pid before gap at_last
          (found_items polls ++ (p.items ++ w.last (traced w pid before))) all
          (collected polled_of w.maps pid before gap found_items refl (λ items a rounds. refl)
            script ending closing polls p.items (w.last (traced w pid before)) rounds at_end at_last
            goes ends closes))
        (map-sent_from gap 0 _) room writes
